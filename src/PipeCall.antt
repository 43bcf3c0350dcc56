-- ===== src/PipeCall.antt =====
-- syscall_pipe of source/pipe.c, which needs the checks of pointers.
use adelaideos.Common.{
  ℕ, zero, suc, ◌+◌, true, false, Option, none, some, List, [], ◌∷◌, ◌++◌, Run, done, ◌>>=◌,
}
use adelaideos.Kernel.{Kernel, max_fds}
use adelaideos.Process.{current_pid}
use adelaideos.UserMemory.{copy_out}
use adelaideos.Pipe.{Ret, value, error, emfile, efault, new_pipe, new_pipe_reader, new_pipe_writer}
use adelaideos.FileDesc.{set_fd}
use adelaideos.Pointers.{valid_pointer}
use adelaideos.FsCalls.{word_bytes}

-- The loop for two unused descriptors: the first, and the first behind it.
unfoldable pub find_second : ℕ → List (Option ℕ) → ℕ → ℕ → Option (ℕ × ℕ)
find_second zero fds readfd i = none
find_second (suc n) [] readfd i = some (readfd, i)
find_second (suc n) (none ∷ fds) readfd i = some (readfd, i)
find_second (suc n) (some _ ∷ fds) readfd i = find_second n fds readfd (i + 1)

unfoldable pub find_two : ℕ → List (Option ℕ) → ℕ → Option (ℕ × ℕ)
find_two zero fds i = none
find_two (suc n) [] i = find_second n [] i (i + 1)
find_two (suc n) (none ∷ fds) i = find_second n fds i (i + 1)
find_two (suc n) (some _ ∷ fds) i = find_two n fds (i + 1)

abbrev open_pipe : Kernel → ℕ → ℕ → ℕ → ℕ → Run (Ret × Kernel)
open_pipe k i filedes readfd writefd = do
  (b, k) ← new_pipe k
  (reader, k) ← new_pipe_reader k b
  (writer, k) ← new_pipe_writer (set_fd k i readfd (some reader)) b
  k ← copy_out (set_fd k i writefd (some writer)) filedes (word_bytes readfd ++ word_bytes writefd)
  done (value 0, k)

unfoldable pub syscall_pipe : Kernel → ℕ → Run (Ret × Kernel)
syscall_pipe k filedes = do
  i ← current_pid k
  elim (valid_pointer (k.processes i) filedes 8) [
    | false ↦ done (error efault, k)
    | true ↦ elim (find_two max_fds (k.processes i).filedesc 0) [
      | none ↦ done (error emfile, k)
      | some (readfd, writefd) ↦ open_pipe k i filedes readfd writefd
    ]
  ]
