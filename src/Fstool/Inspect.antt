-- ===== src/Fstool/Inspect.antt =====
-- The parts of source/fstool.c that read an image: -get, -dump and the shell. What the host's printf and
-- fwrite are given is a value of `Shown`, and `path_size` is the host's PATH_MAX.
use adelaideos.Common.{
  ℕ, zero, suc, ◌+◌, ◌-◌, ◌%◌, ◌^◌, Bool, true, false, Option, none, some, List, [], ◌∷◌, ◌++◌, map,
  take, ◌==◌, if◌then◌else◌, codes, u32_mod, Run, done, stop, no_fuel, ◌>>=◌,
}
use adelaideos.Libc.{strcmp, is_zero}
use adelaideos.Filesystem.{
  Image, read_bytes, slash, type_dir, type_file, entry_size, entry_type, entry_location, entry_mode,
  string_at, dir_count, dir_entry, get_directory_entry, relative_to_absolute,
}
use adelaideos.Pipe.{Errno, enoent, enotdir, eisdir}
use adelaideos.Shell.{parse_command, token}

-- An entry, or the error.
pub data Found : Type 0 where
  entry_at : ℕ → Found
  failure : Errno → Found

abbrev of_type : Image → ℕ → Errno → Option ℕ → Found
of_type fs type wrong none = failure enoent
of_type fs type wrong (some e) = if entry_type fs e == type then entry_at e else failure wrong

unfoldable pub getdir : Image → List ℕ → Found
getdir fs path = of_type fs type_dir enotdir (get_directory_entry fs path)

unfoldable pub getfile : Image → List ℕ → Found
getfile fs path = of_type fs type_file eisdir (get_directory_entry fs path)

-- The name of an entry; a string is searched for at most 2 ^ 32 bytes.
abbrev name_of : Image → ℕ → List ℕ
name_of fs e = string_at u32_mod fs (e + 20)

-- What is printed.
pub data Shown : Type 0 where
  error_text : Errno → Shown
  dumped : Bool → ℕ → List ℕ → Shown
  got : ℕ → ℕ → ℕ → Shown
  listed : ℕ → Bool → ℕ → List ℕ → Shown
  contents : List ℕ → Shown
  text : List ℕ → Shown
  prompt : List ℕ → Shown

abbrev is_dir_entry : Image → ℕ → Bool
is_dir_entry fs e = entry_type fs e == type_dir

-- snprintf(fullpath,PATH_MAX,"%s/%s",path,dir->entries[i].name)
abbrev join_path : ℕ → List ℕ → List ℕ → List ℕ
join_path path_size path name = take (path_size - 1) (path ++ slash ∷ name)

-- The loop of dump_dir over the entries of the directory at `d` from the `i`th on; `inner` is the call
-- for an entry that is a directory.
abbrev dump_entries :
    (List ℕ → ℕ → Run (List Shown)) → ℕ → Image → List ℕ → ℕ → ℕ → ℕ → Run (List Shown)
dump_entries inner path_size fs path d zero i = done []
dump_entries inner path_size fs path d (suc rounds) i = do
  let e = dir_entry d i
  let full = join_path path_size path (name_of fs e)
  below ← elim (is_dir_entry fs e) [ true ↦ inner full e | false ↦ done [] ]
  rest ← dump_entries inner path_size fs path d rounds (i + 1)
  done (dumped (is_dir_entry fs e) (entry_size fs e) full ∷ (below ++ rest))

-- The fuel bounds the depth of the tree.
unfoldable pub dump_dir : ℕ → ℕ → Image → List ℕ → ℕ → Run (List Shown)
dump_dir zero path_size fs path entry = stop no_fuel
dump_dir (suc fuel) path_size fs path entry =
    let d = entry_location fs entry in
    dump_entries (dump_dir fuel path_size fs) path_size fs path d (dir_count fs d) 0

unfoldable pub dump_image : ℕ → ℕ → Image → Run (List Shown)
dump_image fuel path_size fs = dump_dir fuel path_size fs [] 0

-- The part of main for -get.
unfoldable pub get : Image → List ℕ → Shown
get fs path = elim (get_directory_entry fs path) [
  | none ↦ error_text enoent
  | some e ↦ got (entry_type fs e) (entry_size fs e) (entry_location fs e)
]

-- The loop of the command ls. The nine permissions are the low bits of the mode.
abbrev list_entries : Image → ℕ → ℕ → ℕ → List Shown
list_entries fs d zero i = []
list_entries fs d (suc rounds) i =
    let e = dir_entry d i in
    listed (entry_mode fs e % 2 ^ 9) (is_dir_entry fs e) (entry_size fs e) (name_of fs e)
    ∷ list_entries fs d rounds (i + 1)

abbrev list_found : Image → Found → List Shown
list_found fs (failure e) = error_text e ∷ []
list_found fs (entry_at e) = let d = entry_location fs e in list_entries fs d (dir_count fs d) 0

abbrev show_file : Image → Found → List Shown
show_file fs (failure e) = error_text e ∷ []
show_file fs (entry_at e) = contents (read_bytes fs (entry_size fs e) (entry_location fs e)) ∷ []

-- The new working directory, and what is shown.
abbrev change_to : List ℕ → List ℕ → Found → List ℕ × List Shown
change_to cwd path (failure e) = (cwd, error_text e ∷ [])
change_to cwd path (entry_at e) = (path, [])

abbrev help_texts : List Shown
help_texts =
    text (codes "Commands:\n")
    ∷ text (codes "ls [path]  - list directory contents (or . if no path)\n")
    ∷ text (codes "cat <path> - display contents of a file\n")
    ∷ text (codes "cd <path>  - change current working directory\n")
    ∷ text (codes "pwd        - print current working directory\n")
    ∷ text (codes "q          - quit fstool\n")
    ∷ []

abbrev is_word : List ℕ → List ℕ → Bool
is_word word s = is_zero (strcmp word s)

-- A command without arguments; `none` is the end of the shell.
abbrev plain_command : Image → List ℕ → List ℕ → Option (List ℕ × List Shown)
plain_command fs cwd name =
    if is_word name (codes "ls")
    then some (cwd, list_found fs (getdir fs cwd))
    else if is_word name (codes "pwd")
    then some (cwd, text (cwd ++ 10 ∷ []) ∷ [])
    else if is_word name (codes "q")
    then none
    else if is_word name (codes "help")
    then some (cwd, help_texts)
    else some (cwd, text (codes "Invalid command\n") ∷ [])

-- A command with one argument, whose absolute path is `path`.
abbrev path_command : Image → List ℕ → List ℕ → List ℕ → List ℕ × List Shown
path_command fs cwd path name =
    if is_word name (codes "ls")
    then (cwd, list_found fs (getdir fs path))
    else if is_word name (codes "cat")
    then (cwd, show_file fs (getfile fs path))
    else if is_word name (codes "cd")
    then change_to cwd path (getdir fs path)
    else (cwd, text (codes "Invalid command\n") ∷ [])

-- More than one argument: only ls takes them, and reads the first.
abbrev long_command : Image → List ℕ → List ℕ → List ℕ → List ℕ × List Shown
long_command fs cwd path name =
    if is_word name (codes "ls")
    then (cwd, list_found fs (getdir fs path))
    else (cwd, text (codes "Invalid command\n") ∷ [])

unfoldable pub run_words : ℕ → Image → List ℕ → List (List ℕ) → Option (List ℕ × List Shown)
run_words path_size fs cwd [] = some (cwd, text (codes "Invalid command\n") ∷ [])
run_words path_size fs cwd (name ∷ []) = plain_command fs cwd name
run_words path_size fs cwd (name ∷ arg ∷ []) =
    some (path_command fs cwd (relative_to_absolute cwd arg path_size) name)
run_words path_size fs cwd (name ∷ arg ∷ _ ∷ _) =
    some (long_command fs cwd (relative_to_absolute cwd arg path_size) name)

-- The words of a line that fgets gave; the array has room for 8.
abbrev words_of_line : List ℕ → List (List ℕ)
words_of_line line = let t = parse_command line 8 in map (token t.line) t.argv

-- The loop over the lines that fgets gives.
unfoldable pub shell_lines : ℕ → Image → List ℕ → List (List ℕ) → List Shown
shell_lines path_size fs cwd [] = []
shell_lines path_size fs cwd (line ∷ lines) =
    elim (run_words path_size fs cwd (words_of_line line)) [
      | none ↦ []
      | some (cwd', shown) ↦ shown ++ prompt cwd' ∷ shell_lines path_size fs cwd' lines
    ]

unfoldable pub tool_shell : ℕ → Image → List (List ℕ) → List Shown
tool_shell path_size fs lines = prompt (slash ∷ []) ∷ shell_lines path_size fs (slash ∷ []) lines
