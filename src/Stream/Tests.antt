-- ===== src/Stream/Tests.antt =====
-- Short transfers, and the theorems at them.
use daydream.Base.{◌≡◌, refl, [], ◌∷◌, arith}
use daydream.Base.CString.{codes}
use daydream.Stream.{interrupted, moved, finished, unfinished, safe_write, safe_read}
use daydream.Stream.Whole.{safe_write-finished}

whole_read :
    safe_read (moved 2 ∷ interrupted ∷ moved 9 ∷ []) (codes "hello") 4 ≡ finished (codes "hell")
unfolding safe_read
whole_read = refl

end_of_file : safe_read (moved 5 ∷ moved 0 ∷ moved 0 ∷ []) (codes "abc") 4 ≡ unfinished
unfolding safe_read
end_of_file = refl

safe_write-finished_example :
    safe_write (moved 1 ∷ interrupted ∷ moved 1 ∷ moved 1 ∷ []) (codes "abc")
    ≡ finished (codes "abc")
safe_write-finished_example =
    safe_write-finished (moved 1 ∷ interrupted ∷ moved 1 ∷ moved 1 ∷ []) (codes "abc") tt
      (omega arith)
