-- ===== src/FileDesc.antt =====
-- source/filedesc.c: screen handles, closing of handles, close and dup2. A handle's function
-- pointers follow from its type; those of files are in source/fscalls.c.
use adelaideos.Common.{
  ℕ, ◌+◌, ◌-◌, Option, none, some, List, get_or, set, length, leb, ◌==◌, if◌then◌else◌, ℤ,
  checked_index, Run, done, ◌>>=◌, ◌>>◌, assert,
}
use adelaideos.Kernel.{
  HandleType, screen, pipe_writer, pipe_reader, file, dir, Process, Kernel, set_process, set_handle,
  max_fds,
}
use adelaideos.Process.{current_pid}
use adelaideos.Screen.{write_to_screen}
use adelaideos.Pipe.{
  ebadf, einval, Ret, value, error, kfree, make_handle, pipe_writer_destroy, pipe_reader_destroy,
}

unfoldable pub screen_write : Kernel → ℕ → List ℕ → Run (Ret × Kernel)
screen_write k fh buf =
    done (value (length buf), record k { display = write_to_screen buf k.display })

unfoldable pub screen_read : Kernel → ℕ → ℕ → ℕ → Run (Ret × Kernel)
screen_read k fh buf count = done (error einval, k)

unfoldable pub screen_destroy : Kernel → ℕ → Run Kernel
screen_destroy k fh = kfree k fh

unfoldable pub new_screen_handle : Kernel → Run (ℕ × Kernel)
new_screen_handle k = make_handle k screen 0

-- file_destroy of source/fscalls.c
unfoldable pub file_destroy : Kernel → ℕ → Run Kernel
file_destroy k fh = kfree k fh

-- `fh->destroy(fh)`
unfoldable pub destroy : HandleType → Kernel → ℕ → Run Kernel
destroy screen k fh = screen_destroy k fh
destroy pipe_writer k fh = pipe_writer_destroy k fh
destroy pipe_reader k fh = pipe_reader_destroy k fh
destroy file k fh = file_destroy k fh
destroy dir k fh = file_destroy k fh

unfoldable pub close_filehandle : Kernel → ℕ → Run Kernel
close_filehandle k fh = do
  let h = k.handles fh
  assert (leb 1 h.refcount)
  let k' = set_handle k fh (record h { refcount = h.refcount - 1 })
  if h.refcount - 1 == 0 then destroy h.type k' fh else done k'

-- `proc->filedesc[fd]`, and the assignment to it
abbrev pub get_fd : Process → ℕ → Option ℕ
get_fd p fd = get_or p.filedesc fd none

abbrev pub set_fd : Kernel → ℕ → ℕ → Option ℕ → Kernel
set_fd k i fd v =
    set_process k i (record (k.processes i) { filedesc = set (k.processes i).filedesc fd v })

-- The handle of a descriptor of process `i`, with the descriptor's number; `none` is the test
-- (0 > fd) || (MAX_FDS <= fd) || (NULL == filedesc[fd]).
abbrev pub handle_of : Kernel → ℕ → ℤ → Option (ℕ × ℕ)
handle_of k i fd = elim (checked_index fd max_fds) [
  | none ↦ none
  | some n ↦ elim (get_fd (k.processes i) n) [ none ↦ none | some fh ↦ some (n, fh) ]
]

unfoldable pub syscall_close : Kernel → ℤ → Run (Ret × Kernel)
syscall_close k fd = do
  i ← current_pid k
  elim (handle_of k i fd) [
    | none ↦ done (error ebadf, k)
    | some (n, fh) ↦ (do k ← close_filehandle k fh; done (value 0, set_fd k i n none))
  ]

-- The handle `fh` of another descriptor is put at `newfd`.
unfoldable pub redirect : Kernel → ℕ → ℕ → ℕ → Run (Ret × Kernel)
redirect k i fh newfd = do
  k ← elim (get_fd (k.processes i) newfd) [ none ↦ done k | some old ↦ close_filehandle k old ]
  let k = set_fd k i newfd (some fh)
  let h = k.handles fh
  done (value newfd, set_handle k fh (record h { refcount = h.refcount + 1 }))

unfoldable pub syscall_dup2 : Kernel → ℤ → ℤ → Run (Ret × Kernel)
syscall_dup2 k oldfd newfd = do
  i ← current_pid k
  elim (checked_index newfd max_fds) [
    | none ↦ done (error ebadf, k)
    | some m ↦ elim (handle_of k i oldfd) [
      | none ↦ done (error ebadf, k)
      | some (n, fh) ↦ if n == m then done (value m, k) else redirect k i fh m
    ]
  ]
