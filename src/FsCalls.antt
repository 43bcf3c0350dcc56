-- ===== src/FsCalls.antt =====
-- source/fscalls.c: files and directories behind descriptors, and the calls on paths. The first
-- checks of a call, on its pointers, stand in Pointers.
use adelaideos.Common.{
  ℕ, zero, suc, ◌+◌, ◌-◌, ◌/◌, ◌%◌, ◌^◌, Bool, true, false, not, ◌&&◌, Option, none, some, List, [],
  ◌∷◌, ◌++◌, take, ltb, leb, ◌==◌, if◌then◌else◌, u32_mod, ℤ, Run, done, ◌>>=◌,
}
use adelaideos.Kernel.{HandleType, file, dir, Kernel, set_process, set_handle, max_fds}
use adelaideos.Process.{current_pid}
use adelaideos.UserMemory.{copy_out}
use adelaideos.Filesystem.{
  Image, get_directory_entry, relative_to_absolute, type_dir, entry_size, entry_type,
  entry_location, entry_mode, entry_mtime, string_at, dir_count, dir_entry,
}
use adelaideos.Pipe.{ebadf, enoent, emfile, eisdir, enotdir, efault, Ret, value, error, make_handle}
use adelaideos.FileDesc.{set_fd, handle_of}
use adelaideos.Pointers.{valid_pointer, read_path}

abbrev pub path_max : ℕ
path_max = 1024

-- The bytes of a word of 32 bits, the lowest first.
abbrev pub word_bytes : ℕ → List ℕ
word_bytes w = (w % 256) ∷ (w / 2 ^ 8 % 256) ∷ (w / 2 ^ 16 % 256) ∷ (w / 2 ^ 24 % 256) ∷ []

-- The entry of a path, made absolute by the current directory.
abbrev entry_of : Kernel → ℕ → List ℕ → Option ℕ
entry_of k i path =
    get_directory_entry k.filesystem (relative_to_absolute (k.processes i).cwd path path_max)

-- struct stat: mode, uid, gid, size and mtime, of 4 bytes each
unfoldable pub stat_bytes : Image → ℕ → List ℕ
stat_bytes fs e =
    word_bytes (entry_mode fs e)
    ++ (word_bytes 0
        ++ (word_bytes 0 ++ (word_bytes (entry_size fs e) ++ word_bytes (entry_mtime fs e))))

unfoldable pub syscall_stat : Kernel → ℕ → ℕ → Run (Ret × Kernel)
syscall_stat k path buf = do
  i ← current_pid k
  name ← read_path k path
  elim name [
    | none ↦ done (error efault, k)
    | some p ↦
        if valid_pointer (k.processes i) buf 20
        then elim (entry_of k i p) [
          | none ↦ done (error enoent, k)
          | some e ↦ (do k ← copy_out k buf (stat_bytes k.filesystem e); done (value 0, k))
        ]
        else done (error efault, k)
  ]

unfoldable pub file_write : Kernel → ℕ → List ℕ → Run (Ret × Kernel)
file_write k fh buf = done (error ebadf, k)

unfoldable pub image_bytes : ℕ → Image → ℕ → List ℕ
image_bytes zero fs a = []
image_bytes (suc n) fs a = fs a ∷ image_bytes n fs (a + 1)

-- `fh->pos+count` is an unsigned sum.
unfoldable pub read_file : Kernel → ℕ → ℕ → ℕ → Run (Ret × Kernel)
read_file k fh buf count = do
  let h = k.handles fh
  let size = entry_size k.filesystem h.entry
  if leb size h.pos then done (value 0, k) else do
    let n = if ltb size ((h.pos + count) % u32_mod) then size - h.pos else count
    k ← copy_out k buf (image_bytes n k.filesystem (entry_location k.filesystem h.entry + h.pos))
    done (value n, set_handle k fh (record h { pos = h.pos + n }))

unfoldable pub file_read : HandleType → Kernel → ℕ → ℕ → ℕ → Run (Ret × Kernel)
file_read dir k fh buf count = done (error eisdir, k)
file_read _ k fh buf count = read_file k fh buf count

-- new_file, and the assignments to `entry`, `pos` and `entryno`
unfoldable pub new_file : Kernel → HandleType → ℕ → Run (ℕ × Kernel)
new_file k type e = do
  (fh, k) ← make_handle k type 0
  done (fh, set_handle k fh (record (k.handles fh) { entry = e; pos = 0; entryno = 0 }))

-- The first free descriptor; the rounds left are `MAX_FDS - fd`.
unfoldable pub free_fd : ℕ → List (Option ℕ) → ℕ → Option ℕ
free_fd zero fds fd = none
free_fd (suc rounds) [] fd = some fd
free_fd (suc rounds) (none ∷ fds) fd = some fd
free_fd (suc rounds) (some _ ∷ fds) fd = free_fd rounds fds (fd + 1)

unfoldable pub open_directory : ℤ
open_directory = ℤ.pos 0xFFFF

abbrev is_directory_flag : ℤ → Bool
is_directory_flag (ℤ.pos n) = n == 0xFFFF
is_directory_flag (ℤ.negsuc n) = false

unfoldable pub syscall_open : Kernel → ℕ → ℤ → Run (Ret × Kernel)
syscall_open k pathname flags = do
  i ← current_pid k
  name ← read_path k pathname
  elim name [
    | none ↦ done (error efault, k)
    | some p ↦ elim (free_fd max_fds (k.processes i).filedesc 0) [
      | none ↦ done (error emfile, k)
      | some fd ↦ elim (entry_of k i p) [
        | none ↦ done (error enoent, k)
        | some e ↦
            let is_dir = entry_type k.filesystem e == type_dir in
            if is_directory_flag flags && not is_dir
            then done (error enotdir, k)
            else if not (is_directory_flag flags) && is_dir
            then done (error eisdir, k)
            else (do
              (fh, k) ← new_file k (if is_dir then dir else file) e
              done (value fd, set_fd k i fd (some fh)))
      ]
    ]
  ]

-- struct dirent: a word, and the name, of which snprintf copies at most 1024 bytes, with a NUL; the name
-- is copied as a format without `%`.
abbrev dirent_bytes : List ℕ → List ℕ
dirent_bytes name = word_bytes 0 ++ (name ++ 0 ∷ [])

abbrev next_entry : Kernel → ℕ → ℕ → Run (Ret × Kernel)
next_entry k fh buf = do
  let h = k.handles fh
  let d = entry_location k.filesystem h.entry
  if leb (dir_count k.filesystem d) h.entryno then done (value 0, k) else do
    k ← copy_out k buf (dirent_bytes (string_at 1024 k.filesystem (dir_entry d h.entryno + 20)))
    done (value 1, set_handle k fh (record h { entryno = h.entryno + 1 }))

abbrev getdent_of : HandleType → Kernel → ℕ → ℕ → Run (Ret × Kernel)
getdent_of dir k fh buf = next_entry k fh buf
getdent_of _ k fh buf = done (error enotdir, k)

-- sizeof(struct dirent) is 4 + 1025, rounded up to 1032.
unfoldable pub syscall_getdent : Kernel → ℤ → ℕ → Run (Ret × Kernel)
syscall_getdent k fd buf = do
  i ← current_pid k
  elim (valid_pointer (k.processes i) buf 1032) [
    | false ↦ done (error efault, k)
    | true ↦ elim (handle_of k i fd) [
      | none ↦ done (error ebadf, k)
      | some (n, fh) ↦ getdent_of (k.handles fh).type k fh buf
    ]
  ]

unfoldable pub syscall_chdir : Kernel → ℕ → Run (Ret × Kernel)
syscall_chdir k path = do
  i ← current_pid k
  name ← read_path k path
  elim name [
    | none ↦ done (error efault, k)
    | some p ↦ elim (entry_of k i p) [
      | none ↦ done (error enoent, k)
      | some e ↦
          if entry_type k.filesystem e == type_dir
          then (let cwd = relative_to_absolute (k.processes i).cwd p path_max in
              done (value 0, set_process k i (record (k.processes i) { cwd = cwd })))
          else done (error enotdir, k)
    ]
  ]

-- snprintf(buf,size,"%s",cwd), which writes a NUL unless `size` is 0; the result 0 is NULL.
unfoldable pub syscall_getcwd : Kernel → ℕ → ℕ → Run (Ret × Kernel)
syscall_getcwd k buf size = do
  i ← current_pid k
  elim (valid_pointer (k.processes i) buf size) [
    | false ↦ done (value 0, k)
    | true ↦ (do
      let text = if size == 0 then [] else take (size - 1) (k.processes i).cwd ++ 0 ∷ []
      k ← copy_out k buf text
      done (value buf, k))
  ]
