-- ===== src/Tests/Commands.antt =====
-- Examples for the shell's lines and their words.
use adelaideos.Common.{
  ℕ, ◌≡◌, ◌≢◌, refl, true, false, replicate, none, some, List, [], ◌∷◌, ◌++◌, All, map, length,
  take, drop, codes, arith,
}
use adelaideos.Libc.Compare.{IsChar}
use adelaideos.Shell.{parse_command, token}
use adelaideos.Shell.Commands.{scan_input}
use adelaideos.Shell.Commands.Lines.{IsLine, text_of, run_lines, scan_input-lines}
use adelaideos.Shell.Words.{words, parse_command-words}
use adelaideos.User.{goes_on, replaced, and_then, give, System}

-- "ls  -l\n"
abbrev command_line : List ℕ
command_line = codes "ls  -l\n"

command_line-IsChar : All IsChar command_line
command_line-IsChar = ground arith

parse_command-words_example :
    map (token (parse_command command_line 32).line) (parse_command command_line 32).argv
    ≡ take 31 (words command_line)
parse_command-words_example = parse_command-words command_line 32 command_line-IsChar

two_words : words command_line ≡ codes "ls" ∷ codes "-l" ∷ []
unfolding words
two_words = refl

-- What is left of the file, and what has been shown.
abbrev Desk : Type 0
Desk = List ℕ × List ℕ

abbrev desk : System Desk
desk = record {
  getpid = give 1;
  geterrno = give 0;
  write = λ fd bytes s. goes_on (some (length bytes)) (s.0, s.1 ++ bytes);
  read = λ fd n s. goes_on (some (take n s.0)) (drop n s.0, s.1);
  open_path = λ path flags s. goes_on (some 3) s;
  close = λ fd. give tt;
  getdent = λ fd. give none;
  stat = λ path. give none;
  chdir = λ path. give true;
  getcwd = λ n. give none;
  brk = λ n. give true;
  fork = give none;
  execve = λ path argv s. replaced s;
  waitpid = λ pid. give true;
  malloc = λ n. give 0;
  free = λ at. give tt;
  stack = replicate 4096 0;
}

abbrev poem : List ℕ
poem = codes "A text of more than twenty bytes.\n"

pw-IsLine : IsLine (codes "pw")
pw-IsLine = ground arith

d-IsLine : IsLine (codes "d")
d-IsLine = ground arith

exit-IsLine : IsLine (codes "exit")
exit-IsLine = ground arith

l-rest : All (λ c. c ≢ 10) (codes "l")
l-rest = ground arith

-- "pw" is held; "d", "exit" and "l" are read.
scan_input-lines_example :
    scan_input desk
      (codes "pw")
      (text_of (codes "d" ∷ codes "exit" ∷ []) ++ codes "l")
      false
      (poem, [])
    ≡ and_then
        (run_lines desk (codes "pwd" ∷ codes "exit" ∷ []) false (poem, []))
        (λ d. give (codes "l", d))
scan_input-lines_example =
    scan_input-lines desk (codes "pw") (codes "d") (codes "exit" ∷ []) (codes "l") false (poem, [])
      pw-IsLine d-IsLine (exit-IsLine, tt) l-rest
