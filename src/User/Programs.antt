-- ===== src/User/Programs.antt =====
-- The programs of source/cat.c, source/ls.c and source/find.c, and the processes of source/main.c that
-- count, filter their input or start the shell. The arguments of a program are a list without its name.
-- The loops over what a call gives run on fuel.
use adelaideos.Common.{
  ℕ, zero, suc, ◌+◌, ◌-◌, ◌/◌, ◌%◌, ◌^◌, Bool, true, false, Option, none, some, List, [], ◌∷◌, ◌&&◌,
  get_or, map, leb, ◌==◌, if◌then◌else◌, codes, ℤ, pos, negsuc, u32_mod, stop, no_fuel,
}
use adelaideos.Libc.Format.{Varargs}
use adelaideos.User.{
  Program, ◌>>=◌, give, pure, exit, Stat, System, texts_of, number_and_text, printf, print_path,
  perror, Dir, opendir, readdir, closedir,
}

-- The words of a format that takes only numbers.
abbrev numbers_of : List ℕ → Varargs
numbers_of ws = record { word = λ i. get_or ws i 0; text = λ a. [] }

-- read gives `none` for a negative result, and no bytes at the end.
pub data Reading : Type 0 where
  failed : Reading
  at_end : Reading
  some_bytes : List ℕ → Reading

abbrev pub reading_of : Option (List ℕ) → Reading
reading_of none = failed
reading_of (some []) = at_end
reading_of (some (c ∷ cs)) = some_bytes (c ∷ cs)

abbrev pub minus_one : ℤ
minus_one = negsuc 0

-- A permission bit as a letter, or a dash.
abbrev mode_char : ℕ → ℕ → ℕ → ℕ
mode_char mode bit letter = if mode / 2 ^ bit % 2 == 1 then letter else b'-'

abbrev mode_chars : ℕ → List ℕ
mode_chars m =
    mode_char m 14 b'd'
    ∷ mode_char m 8 b'r'
    ∷ mode_char m 7 b'w'
    ∷ mode_char m 6 b'x'
    ∷ mode_char m 5 b'r'
    ∷ mode_char m 4 b'w'
    ∷ mode_char m 3 b'x'
    ∷ mode_char m 2 b'r'
    ∷ mode_char m 1 b'w'
    ∷ mode_char m 0 b'x'
    ∷ []

abbrev is_dir_mode : ℕ → Bool
is_dir_mode m = m / 2 ^ 14 % 2 == 1

-- if (('a' <= buf[i]) && ('z' >= buf[i])) buf[i] += 'A'-'a';
abbrev to_upper : ℕ → ℕ
to_upper c = if leb 97 c && leb c 122 then c - 32 else c

module _ {S : Type 0} (sys : System S) where
  -- while (0 < (r = read(fd,buf,bsize))) write(STDOUT_FILENO,buf,r); and what follows it
  unfoldable pub cat_loop : ℕ → ℕ → Program S ℤ
  cat_loop zero fd = pure (stop no_fuel)
  cat_loop (suc fuel) fd = do
    r ← sys.read fd 20
    elim (reading_of r) [
      | failed ↦ (do _ ← perror sys (some (codes "read")); give minus_one)
      | at_end ↦ (do _ ← sys.close fd; give (pos 0))
      | some_bytes bytes ↦ (do _ ← sys.write 1 bytes; cat_loop fuel fd)
    ]

  -- main of source/cat.c, for its arguments behind the name of the program
  unfoldable pub cat : ℕ → List (List ℕ) → Program S ℤ
  cat fuel [] = do _ ← printf sys (texts_of []) (codes "Usage: cat <filename>\n"); give minus_one
  cat fuel (path ∷ _) = do
    opened ← sys.open_path path 0
    elim opened [
      | none ↦ (do _ ← perror sys (some path); give minus_one)
      | some fd ↦ cat_loop fuel fd
    ]

  abbrev print_entry : List ℕ → Stat → Program S (Unit {0})
  print_entry name st = do
    _ ← printf sys (numbers_of (mode_chars st.st_mode)) (codes "%c%c%c%c%c%c%c%c%c%c ")
    printf sys (number_and_text st.st_size name)
        (if is_dir_mode st.st_mode then codes "DIR  %-8d %s/\n" else codes "FILE %-8d %s\n")

  unfoldable pub ls_loop : ℕ → List ℕ → Dir → Program S ℤ
  ls_loop zero path d = pure (stop no_fuel)
  ls_loop (suc fuel) path d = do
    entry ← readdir sys d
    elim entry [
      | none ↦ (do _ ← closedir sys d; give (pos 0))
      | some name ↦ (do
        full ← print_path sys 1024 (codes "%s/%s") (path ∷ name ∷ [])
        found ← sys.stat full
        _ ← elim found [ none ↦ perror sys (some full) | some st ↦ print_entry name st ]
        ls_loop fuel path d)
    ]

  -- if (NULL == (dir = opendir(path))) { perror(path); return -1; }
  abbrev with_dir : List ℕ → (Dir → Program S ℤ) → Program S ℤ
  with_dir path go = do
    opened ← opendir sys path
    elim opened [ none ↦ (do _ ← perror sys (some path); give minus_one) | some d ↦ go d ]

  abbrev path_argument : List (List ℕ) → List ℕ
  path_argument [] = b'.' ∷ []
  path_argument (path ∷ _) = path

  -- main of source/ls.c
  unfoldable pub ls : ℕ → List (List ℕ) → Program S ℤ
  ls fuel args = with_dir (path_argument args) (ls_loop fuel (path_argument args))

  abbrev is_zero_result : ℤ → Bool
  is_zero_result (pos n) = n == 0
  is_zero_result (negsuc n) = false

  -- The loop of find; the fuel bounds the entries and the depth together.
  unfoldable pub find_loop : ℕ → List ℕ → Dir → Program S ℤ
  find_loop zero path d = pure (stop no_fuel)
  find_loop (suc fuel) path d = do
    entry ← readdir sys d
    elim entry [
      | none ↦ (do _ ← closedir sys d; give (pos 0))
      | some name ↦ (do
        full ← print_path sys 1024 (codes "%s/%s") (path ∷ name ∷ [])
        _ ← printf sys (texts_of (full ∷ [])) (codes "%s\n")
        found ← sys.stat full
        r ← elim found [
          | none ↦ (do _ ← perror sys (some full); give (pos 0))
          | some st ↦ elim (is_dir_mode st.st_mode) [
            | true ↦ with_dir full (find_loop fuel full)
            | false ↦ give (pos 0)
          ]
        ]
        elim (is_zero_result r) [ true ↦ find_loop fuel path d | false ↦ give minus_one ])
    ]

  -- main of source/find.c
  unfoldable pub find : ℕ → List (List ℕ) → Program S ℤ
  find fuel args = with_dir (path_argument args) (find_loop fuel (path_argument args))

  -- uppercase. It has no end: where read gives nothing, it begins anew.
  unfoldable pub uppercase : ℕ → Program S (Unit {0})
  uppercase zero = pure (stop no_fuel)
  uppercase (suc fuel) = do
    r ← sys.read 0 1024
    elim (reading_of r) [
      | some_bytes bytes ↦ (do _ ← sys.write 1 (map to_upper bytes); uppercase fuel)
      | _ ↦ uppercase fuel
    ]

  abbrev print_lineno : ℕ → Program S (Unit {0})
  print_lineno lineno = printf sys (numbers_of (lineno ∷ [])) (codes "%3d ")

  -- The loop of number_lines over what was read; the result is `lineno`.
  unfoldable pub number_bytes : List ℕ → ℕ → Program S ℕ
  number_bytes [] lineno = give lineno
  number_bytes (c ∷ cs) lineno = do
    _ ← sys.write 1 (c ∷ [])
    elim (c == 10) [
      | true ↦ (do _ ← print_lineno (lineno + 1); number_bytes cs (lineno + 1))
      | false ↦ number_bytes cs lineno
    ]

  -- number_lines from a read on. It has no end either, and counts anew where read gives nothing.
  unfoldable pub number_loop : ℕ → ℕ → Program S (Unit {0})
  number_loop zero lineno = pure (stop no_fuel)
  number_loop (suc fuel) lineno = do
    r ← sys.read 0 1024
    elim (reading_of r) [
      | some_bytes bytes ↦ (do lineno ← number_bytes bytes lineno; number_loop fuel lineno)
      | _ ↦ (do _ ← print_lineno 0; number_loop fuel 0)
    ]

  unfoldable pub number_lines : ℕ → Program S (Unit {0})
  number_lines fuel = do _ ← print_lineno 0; number_loop fuel 0

  -- The loop of process_a and process_b from the value of `iterations` on.
  unfoldable pub count_loop : ℕ → List ℕ → ℕ → Program S (Unit {0})
  count_loop zero format iterations = pure (stop no_fuel)
  count_loop (suc fuel) format iterations = do
    pid ← sys.getpid
    _ ← printf sys (numbers_of (pid ∷ iterations ∷ [])) format
    count_loop fuel format ((iterations + 1) % u32_mod)

  unfoldable pub process_a : ℕ → Program S (Unit {0})
  process_a fuel = count_loop fuel (codes "I am process A (pid %d), iterations = %d\n") 0

  unfoldable pub process_b : ℕ → Program S (Unit {0})
  process_b fuel = count_loop fuel (codes "I am process B (pid %d), iterations = %d\n") 0

  unfoldable pub launch_shell : Program S (Unit {0})
  launch_shell = do
    program ← print_path sys 100 (codes "/bin/sh") []
    _ ← sys.execve program []
    n ← sys.geterrno
    _ ← printf sys (numbers_of (n ∷ [])) (codes "/bin/sh: execve failed: %d\n")
    exit 1
