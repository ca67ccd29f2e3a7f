-- ===== src/Flags/Tests.antt =====
-- Runs of the tag editor, and its theorems at concrete users, lists and file systems.
use daydream.Base.{
  ℕ, ◌+◌, ◌*◌, ◌≤◌, ◌<◌, ◌≡◌, refl, ◌≢◌, ◌↔◌, true, false, not, List, [], ◌∷◌, ◌++◌, none, some,
  arith, length, filter, take, All, if◌then◌else◌, inl, inr, Bool-cases, ◌-◌, ◌/◌, ◌%◌,
}
use daydream.Base.CString.{Str, codes, tolower, str_eq}
use daydream.Text.Lines.{unlines}
use daydream.Text.Numbers.{decimal}
use daydream.Flags.{User, Tags, tagged, new_flag, addtag}
use daydream.Flags.Session.{Call, adds, unflags, recounts, run, no_tags, IsValid, run-IsValid}
use daydream.Flags.Times.{secstosentence}
use daydream.Flags.Find.{FileSystem, Area, flagfile, first_path}
use daydream.Flags.Find.Search.{flagfile-IsValid}

-- A user with a file ratio of 2, one upload and no download, and a byte ratio of 3.
abbrev leech : User
leech = record {
  user_ulbytes = 1000;
  user_dlbytes = 0;
  user_freedlbytes = 0;
  user_ulfiles = 1;
  user_dlfiles = 0;
  user_freedlfiles = 0;
  user_fileratio = 2;
  user_byteratio = 3;
}

abbrev one_tag : Tags
one_tag = record {
  counts = record { filestagged = 1; bytestagged = 500; ffilestagged = 0; fbytestagged = 0 };
  flaggedfiles = new_flag (codes "/d/") (codes "a.lha") 1 500 0 ∷ [];
}

abbrev calls : List Call
calls =
    adds leech (codes "/d/") (codes "a.lha") 1 500 0
    ∷ adds leech (codes "/d/") (codes "A.LHA") 1 500 0
    ∷ unflags (codes "a*")
    ∷ recounts
    ∷ []

run-IsValid_example : IsValid (run no_tags calls)
run-IsValid_example = run-IsValid calls (omega arith)

second_tag : (addtag leech one_tag (codes "/d/") (codes "b.lha") 1 100 0).1 ≡ tagged
unfolding addtag new_flag tolower daydream.Base.CString.strcase_eq daydream.Base.CString.strlcpy
second_tag = refl

says : secstosentence 3725 50 ≡ codes "1 hour, 2 minutes, 5 seconds"
unfolding secstosentence decimal daydream.Base.CString.strlcat
says = refl

-- Two file areas; the second holds `a.lha`, and the conference is free.
abbrev disk : FileSystem
disk = record {
  contents = λ path.
      if str_eq path (codes "/c/data/paths.dat")
      then some (unlines (codes "/c/u/" ∷ codes "/c/d/" ∷ []))
      else none;
  file_size = λ path. if str_eq path (codes "/c/d/a.lha") then some 500 else none;
  entries =
      λ path. if str_eq path (codes "/c/d/") then some (codes "." ∷ codes "a.lha" ∷ []) else none;
}

abbrev free_area : Area
free_area = record { conf_number = 1; conf_path = codes "/c"; conf_attributes = 1 }

finds_lower_case :
    first_path disk (codes "/dd") free_area (codes "/c/u/" ∷ codes "/c/d/" ∷ []) (codes "A.LHA")
    ≡ some (codes "/c/d/", 500)
unfolding first_path str_eq tolower
finds_lower_case = refl

entries_fit :
    (path : Str) (names : List Str)
    → disk.entries path ≡ some names
    → All (λ name. length name ≤ 255) names
entries_fit path names h = elim (Bool-cases (str_eq path (codes "/c/d/"))) [
  | inl e ↦ ground arith
  | inr e ↦ ground arith
]

flagfile-IsValid_example :
    IsValid (flagfile disk (codes "/dd") free_area leech (run no_tags calls) (codes "*.lha")).0
flagfile-IsValid_example =
    flagfile-IsValid disk (codes "/dd") free_area leech (run no_tags calls) (codes "*.lha")
      entries_fit (omega arith) (run-IsValid calls (omega arith))
