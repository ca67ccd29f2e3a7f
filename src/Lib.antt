-- ===== src/Lib.antt =====
-- DayDream BBS: the programs of main/ and the library lib/ that doors are linked with.
--
-- The program runs one caller's session. A session reads the conferences from a file, checks what the
-- caller may enter, keeps the last-read pointers of the message bases and a list of files tagged for
-- download, and runs doors, separate programs that talk to it over a socket. The files follow these parts:
--
-- - Base: lists, Booleans and C strings. A C string is the list of its bytes before the NUL, in the C
--   locale; `strlcpy`, `strlcat`, `strcasecmp` and the like are those of lib/ and the C library.
-- - Glob: `wildcmp` and `iswilds` of main/misc.c, the wildcards of file names. Glob/Matches says what a
--   pattern matches, Glob/Decides compares the code with it, Glob/Limits has the names it treats otherwise.
-- - Text: the helpers on texts of main/misc.c and `pathcat2` of lib/libddcommon.c, with Text/Tokens,
--   Text/Lines, Text/Numbers and Text/Paths.
-- - Flags: the tag list of main/tagedit.c, its four counters and the two ratio checks. Flags/Unflag and
--   Flags/Session are about sequences of operations, Flags/Ratio about the checks, Flags/Times about the
--   time estimate, Flags/Find about the search for files that `flagsingle` and `flagfile` do.
-- - Access: main/access.c, security levels and the bits of conferences, with Access/Refresh.
-- - Conference: the list of main/conference.c, the file data/conferences.dat, and the search of that file
--   that lib/libdd.c does for doors, with Conference/File.
-- - Join: main/joinconf.c and `getmsgptrs` of main/entermsg.c. It calls Access and Conference; Join/Entry
--   and Join/Allowed are about joining, Join/Pointers about the last-read pointers.
-- - Door: the messages between a door (lib/libdd.c, Door/Client) and the program (`door_loop` of
--   main/doorport.c, Door/Server). The rest of the program is the record `Board` of the functions that the
--   loop calls, a parameter of both sides. Door/Values, Door/Output and Door/Direct put the sides together.
-- - Keys: `HotKey` of main/hotkey.c on a list of what `read_input` gives, with Keys/Answers and
--   Keys/Arrows. Prompt: `Prompt` of main/prompt.c on a buffer of bytes; Prompt/Cursor has the editor of a
--   line with a cursor that it is compared with, Prompt/Whole and Prompt/Wrap the comparison.
-- - LineEd: `lineed`, `delete_lines` and `quote` of main/lineed.c on the rows of the buffer, one step for
--   each answer that is typed. LineEd/Draft has the editor of a list of lines that it is compared with in
--   LineEd/Session and LineEd/Quote.
-- - UserBase: the file of users of main/user.c and the searches by name of main/misc.c, with
--   UserBase/Numbers.
-- - Message: `entermsg` of main/entermsg.c, from its checks (Message/Rules, Message/Netmail) to the files
--   of the base (Message/Save, Message/Numbered, Message/Saved). It takes what LineEd leaves, and finds the
--   receiver of a local message with UserBase.
-- - Scan: the scan of a base for new mail in `scanfornewmail` of main/mailscan.c, on the files of Message,
--   with Scan/Window.
-- - Reader: the message reader of main/readmsgs.c, on the files of Message. Reader has the window of records
--   and `showmsg`, Reader/Edits deleting and keeping, Reader/Headers (with Rules and Numbers) the editing of
--   a header, which the loop of the model does not call, Reader/Commands the loop `readmessages`, Reader/Width
--   `strlena`. Reader/Window and Reader/Loaded are about the windows, Reader/Answer compares the search with
--   the file, Reader/Showing and Reader/Commands/Kept are about what every step keeps,
--   Reader/Commands/Visible about who sees a message, Reader/Commands/Numbers about the numbers of the
--   messages, and Reader/Commands/Masked about a session with a mask.
-- - TextSearch: the search for a text in a base, main/textsearch.c, which opens the reader with a mask.
--   TextSearch/Words is about the texts, TextSearch/Marks about the mask, TextSearch/Found about what the
--   reader then shows.
-- - Selection: the bases and conferences that a user selects, in main/edituser.c. Selection/Bits is about the
--   bits of a byte, Selection/Tokens about the tokens of a line, Selection/Toggles about a number that is
--   typed, Selection/Outside and Selection/Areas about what a choice leaves as it was.
-- - Rounds: the commands that walk over the bases, `textsearch` of main/textsearch.c and `globalread` of
--   main/readmsgs.c. They put Join, Selection, TextSearch and Reader together: each session of the reader
--   works on the files of the base that Join enters. Rounds/Search is about what a text search shows and
--   where it ends, Rounds/Steps and Rounds/Visited about the bases it opens, Rounds/Global about
--   `globalread`, with Join/Current for the base that a change of the base leads to.
-- - Menu: the dispatch of menu commands, `primitive_docmd` of main/domenu.c, on the rights of Access; the
--   functions that the commands call are a parameter. Menu/Rights is about missing rights.
-- - Symtab: the symbol table of main/symtab.c on the lists of main/utility.c, with Symtab/Lookup.
-- - Stream: `safe_read` and `safe_write` of lib/libddcommon.c, with Stream/Whole. What the system calls
--   return is a list of results, a parameter.
--
-- State is passed explicitly: globals are fields of a record, and a function gives the record it leaves.
-- What the user types is a list of keys for HotKey and Prompt, and a list of lines elsewhere. Files are
-- functions from names to contents, or the lists of their records. Display is left out, except where a door
-- asks for it. Machine integers are natural numbers with their wrap-around written out; a negative number
-- is a bit pattern, or `none` where only its sign counts.
--
-- Loops are recursion on the list or the string they walk where they walk one, and run on fuel elsewhere:
-- the reading of the conference file and the doors' search of it, a round for each record, with the number
-- of records as fuel, since a round takes one at least; the output of a door's text, a round for each 299
-- bytes, with the length of the text; the division of the time estimate by subtraction, with more than the
-- seconds; the loops over words and lines of Text, where the fuel is an argument and has to be above
-- the number of words or lines, since a round takes one; the search for the line of a message that a reply
-- names, with the length of its text; the search of `showmsg`, with five windows more than the file has
-- records, since each window but the first, the one that is guessed and two that lie back has a record more
-- before it; the tokens of a line of Selection and the steps of `strlena`, one for each byte and the end,
-- since each takes a byte.
--
-- A session of the reader in the model ends at the commands e, eh, r, re, ] and [. The C loop goes on behind
-- them, behind ] and [ with the window of the base before, so what is said of sessions ends there too.
--
-- Not modelled: the display engine and the user editors, which are screens over fields of the user record;
-- the history and the hot keys of the main prompt; upload and download, which run external programs and read
-- their logs; the full-screen editor, the editing of texts and the replies of the message reader, which go
-- through it; the menu files and the file lists, whose parsing is mixed with paging; node messages, the
-- waiting-for-caller screen, the sockets and processes of doors, which are communication of processes; and
-- the programs outside main/ and lib/, which share files with it, and of which the telnet daemon, the FTP
-- daemon and the Zmodem and Hydra programs are copies of others. Command 29 of doors packs two strings into
-- one buffer and is left out.
pub mod Base
pub mod Access
pub mod Conference
pub mod Door
pub mod Flags
pub mod Glob
pub mod Join
pub mod Keys
pub mod LineEd
pub mod Menu
pub mod Message
pub mod Prompt
pub mod Reader
pub mod Rounds
pub mod Scan
pub mod Selection
pub mod Stream
pub mod Symtab
pub mod Text
pub mod TextSearch
pub mod UserBase
