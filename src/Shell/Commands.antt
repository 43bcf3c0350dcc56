-- ===== src/Shell/Commands.antt =====
-- The commands of source/sh.c, and its main: a shell on the system calls that the module User takes as
-- parameters. The part of the array `input` that is still to be used is a list; it holds less than 2 *
-- BUFSIZE bytes, since main keeps less than BUFSIZE of them and reads at most as many.
pub mod Lines
use adelaideos.Common.{
  ℕ, zero, suc, Bool, true, false, none, some, List, [], ◌∷◌, ◌++◌, length, map, leb, ◌==◌,
  if◌then◌else◌, codes, ℤ, pos, stop, no_fuel,
}
use adelaideos.Libc.{strcmp, is_zero}
use adelaideos.User.{
  Program, ◌>>=◌, give, pure, exit, System, texts_of, number_and_text, printf, print_path, perror,
}
use adelaideos.User.Programs.{failed, at_end, some_bytes, reading_of}
use adelaideos.Shell.{parse_command, token}

-- argv, as the strings that its elements point to
unfoldable pub argv_of : List ℕ → List (List ℕ)
argv_of line = let t = parse_command line 32 in map (token t.line) t.argv

module _ {S : Type 0} (sys : System S) where
  unfoldable pub run_program : List ℕ → List (List ℕ) → Program S (Unit {0})
  run_program filename argv = do
    forked ← sys.fork
    elim forked [
      | none ↦ perror sys (some (codes "fork"))
      | some zero ↦ (do
        _ ← sys.execve filename argv
        _ ← perror sys (some (codes "execve"))
        exit 1)
      | some (suc pid) ↦ (do
        waited ← sys.waitpid (suc pid)
        elim waited [ true ↦ give tt | false ↦ perror sys (some (codes "waitpid")) ])
    ]

  abbrev change_dir : List (List ℕ) → Program S (Unit {0})
  change_dir [] = printf sys (texts_of []) (codes "Usage: cd <path>\n")
  change_dir (path ∷ _) = do
    changed ← sys.chdir path
    elim changed [ true ↦ give tt | false ↦ perror sys (some path) ]

  abbrev print_dir : Program S (Unit {0})
  print_dir = do
    cwd ← sys.getcwd 1024
    elim cwd [
      | none ↦ perror sys (some (codes "getcwd"))
      | some path ↦ printf sys (texts_of (path ∷ [])) (codes "%s\n")
    ]

  abbrev run_command : List ℕ → List (List ℕ) → Program S (Unit {0})
  run_command name argv = do
    path ← print_path sys 1024 (codes "/bin/%s") (name ∷ [])
    found ← sys.stat path
    elim found [
      | some _ ↦ run_program path argv
      | none ↦ printf sys (texts_of (name ∷ [])) (codes "%s: command not found\n")
    ]

  -- The result is `done`, from its value before.
  unfoldable pub process_args : List (List ℕ) → Bool → Program S Bool
  process_args [] done = give done
  process_args (name ∷ args) done =
      if is_zero (strcmp name (codes "cd"))
      then (do _ ← change_dir args; give done)
      else if is_zero (strcmp name (codes "pwd"))
      then (do _ ← print_dir; give done)
      else if is_zero (strcmp name (codes "exit"))
      then give true
      else (do _ ← run_command name (name ∷ args); give done)

  unfoldable pub process_line : List ℕ → Bool → Program S Bool
  process_line line done = process_args (argv_of line) done

  -- while (pos < end): the line so far, what is left of the input, and `done`. The result is what
  -- stands behind the last newline.
  unfoldable pub scan_input : List ℕ → List ℕ → Bool → Program S (List ℕ × Bool)
  scan_input line [] done = give (line, done)
  scan_input line (c ∷ cs) done = elim (c == 10) [
    | true ↦ (do
      done ← process_line line done
      _ ← printf sys (texts_of []) (codes "$ ")
      scan_input [] cs done)
    | false ↦ scan_input (line ++ c ∷ []) cs done
  ]

  -- if (pos >= BUFSIZE)
  abbrev keep_rest : List ℕ → Program S (List ℕ)
  keep_rest rest = elim (leb 1024 (length rest)) [
    | true ↦ (do _ ← printf sys (texts_of []) (codes "Line too long; ignored"); give [])
    | false ↦ give rest
  ]

  -- The loop of main from a read on, and what follows it. The fuel bounds the reads.
  unfoldable pub shell_loop : ℕ → List ℕ → Program S ℤ
  shell_loop zero held = pure (stop no_fuel)
  shell_loop (suc fuel) held = do
    r ← sys.read 0 1024
    elim (reading_of r) [
      | failed ↦ (do _ ← perror sys (some (codes "read")); give (pos 0))
      | at_end ↦ give (pos 0)
      | some_bytes bytes ↦ (do
        _ ← sys.write 1 bytes
        (rest, done) ← scan_input held bytes false
        held ← keep_rest rest
        elim done [ true ↦ give (pos 0) | false ↦ shell_loop fuel held ])
    ]

  unfoldable pub shell : ℕ → Program S ℤ
  shell fuel = do
    pid ← sys.getpid
    _ ← printf sys (number_and_text pid []) (codes "Shell started, pid = %d\n")
    _ ← printf sys (texts_of []) (codes "$ ")
    shell_loop fuel []
