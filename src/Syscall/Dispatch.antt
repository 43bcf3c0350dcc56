-- ===== src/Syscall/Dispatch.antt =====
-- syscall of source/syscall.c: the arguments on the stack of the process, the dispatch, errno, and the
-- switch to another process when the call has blocked.
use adelaideos.Common.{
  ℕ, zero, suc, ◌+◌, ◌-◌, ◌*◌, ◌^◌, Bool, true, false, not, Option, none, some, ltb, ◌==◌,
  if◌then◌else◌, ℤ, [], ◌∷◌, replicate, codes, Run, done, stop, no_fuel, ◌>>=◌,
}
use adelaideos.Console.{kprint}
use adelaideos.Kernel.{Regs, Kernel, set_process}
use adelaideos.Process.{current_pid}
use adelaideos.Process.Kill.{same_pid}
use adelaideos.Process.Switch.{Idle, context_switch}
use adelaideos.Pipe.{
  Errno, ebadf, einval, esrch, eperm, enoent, emfile, eisdir, enotdir, enosys, enomem, efault,
  eagain, echild, Ret, value, error, suspended,
}
use adelaideos.FileDesc.{syscall_close, syscall_dup2}
use adelaideos.FsCalls.{syscall_stat, syscall_open, syscall_getdent, syscall_chdir, syscall_getcwd}
use adelaideos.PipeCall.{syscall_pipe}
use adelaideos.UnixProc.{user_word, syscall_fork, syscall_execve, syscall_waitpid}
use adelaideos.Syscall.{
  syscall_getpid, syscall_exit, syscall_write, syscall_read, syscall_geterrno, syscall_brk,
  syscall_kill, syscall_send, syscall_receive,
}

-- The numbers of source/constants.h.
unfoldable pub errno_code : Errno → ℕ
errno_code ebadf = 2
errno_code einval = 3
errno_code esrch = 4
errno_code eperm = 5
errno_code enoent = 6
errno_code emfile = 7
errno_code eisdir = 8
errno_code enotdir = 9
errno_code enosys = 10
errno_code enomem = 11
errno_code efault = 12
errno_code eagain = 13
errno_code echild = 14

-- A word as an `int`.
abbrev to_int : ℕ → ℤ
to_int w = if ltb w (2 ^ 31) then ℤ.pos w else ℤ.negsuc (2 ^ 32 - w - 1)

-- A handler that leaves the registers alone.
abbrev with_regs : Regs → Run (Ret × Kernel) → Run (Ret × Regs × Kernel)
with_regs r m = do (v, k) ← m; done (v, r, k)

-- `args[n]`, an array that begins 4 bytes above the stack pointer
abbrev arg : Regs → Kernel → ℕ → Run ℕ
arg r k n = user_word k (r.useresp + 4 + 4 * n)

abbrev one_arg : Regs → Kernel → (ℕ → Run (Ret × Kernel)) → Run (Ret × Regs × Kernel)
one_arg r k f = do a ← arg r k 0; with_regs r (f a)

abbrev two_args : Regs → Kernel → (ℕ → ℕ → Run (Ret × Kernel)) → Run (Ret × Regs × Kernel)
two_args r k f = do a ← arg r k 0; b ← arg r k 1; with_regs r (f a b)

abbrev three_args : Regs → Kernel → (ℕ → ℕ → ℕ → Run (Ret × Kernel)) → Run (Ret × Regs × Kernel)
three_args r k f = do a ← arg r k 0; b ← arg r k 1; c ← arg r k 2; with_regs r (f a b c)

abbrev four_args : Regs → Kernel → (ℕ → ℕ → ℕ → ℕ → Run (Ret × Kernel)) → Run (Ret × Regs × Kernel)
four_args r k f = do
  a ← arg r k 0
  b ← arg r k 1
  c ← arg r k 2
  d ← arg r k 3
  with_regs r (f a b c d)

pub data Call : Type 0 where
  getpid exit write read geterrno brk send receive close pipe : Call
  dup2 fork execve waitpid stat open_file getdent chdir getcwd kill : Call

-- The numbers of source/constants.h; `none` is a number that no call has.
unfoldable pub call_of : ℕ → Option Call
call_of n =
    if n == 1
    then some getpid
    else if n == 2
    then some exit
    else if n == 3
    then some write
    else if n == 4
    then some read
    else if n == 5
    then some geterrno
    else if n == 6
    then some brk
    else if n == 7
    then some send
    else if n == 8
    then some receive
    else if n == 9
    then some close
    else if n == 10
    then some pipe
    else if n == 11
    then some dup2
    else if n == 12
    then some fork
    else if n == 13
    then some execve
    else if n == 14
    then some waitpid
    else if n == 15
    then some stat
    else if n == 16
    then some open_file
    else if n == 17
    then some getdent
    else if n == 18
    then some chdir
    else if n == 19
    then some getcwd
    else if n == 20
    then some kill
    else none

unfoldable pub handler : Call → Regs → Kernel → Run (Ret × Regs × Kernel)
handler getpid r k = with_regs r (syscall_getpid k)
handler exit r k = one_arg r k (syscall_exit k)
handler write r k = three_args r k (λ fd buf n. syscall_write k (to_int fd) buf n)
handler read r k = three_args r k (λ fd buf n. syscall_read k (to_int fd) buf n)
handler geterrno r k = with_regs r (syscall_geterrno k)
handler brk r k = one_arg r k (syscall_brk k)
handler send r k = four_args r k (λ to tag buf n. syscall_send k (to_int to) tag buf n)
handler receive r k = two_args r k (λ msg block. syscall_receive k msg (not (block == 0)))
handler close r k = one_arg r k (λ fd. syscall_close k (to_int fd))
handler pipe r k = one_arg r k (syscall_pipe k)
handler dup2 r k = two_args r k (λ old new. syscall_dup2 k (to_int old) (to_int new))
handler fork r k = with_regs r (syscall_fork k r)
handler execve r k = do name ← arg r k 0; argv ← arg r k 1; syscall_execve k name argv r
handler waitpid r k = two_args r k (λ pid status. syscall_waitpid k (to_int pid) status)
handler stat r k = two_args r k (syscall_stat k)
handler open_file r k = two_args r k (λ path flags. syscall_open k path (to_int flags))
handler getdent r k = two_args r k (λ fd entry. syscall_getdent k (to_int fd) entry)
handler chdir r k = one_arg r k (syscall_chdir k)
handler getcwd r k = two_args r k (syscall_getcwd k)
handler kill r k = one_arg r k (λ pid. syscall_kill k (to_int pid))

-- The value of `res` as a word, and what becomes of it when `errno` is recorded.
abbrev raw : Ret → ℕ
raw (value n) = n
raw (error e) = 2 ^ 32 - errno_code e
raw suspended = 2 ^ 32 - 1000

abbrev reported : Ret → ℕ × ℕ
reported (value n) = (n, 0)
reported (error e) = (2 ^ 32 - 1, errno_code e)
reported suspended = (raw suspended, 0)

-- `last_errno` of the process that is current after the call, and the value for EAX.
unfoldable pub record_errno : Bool → Ret → Kernel → ℕ × Kernel
record_errno reports ret k = elim k.current [
  | none ↦ (raw ret, k)
  | some i ↦
      let (res, code) = reported ret in
      if reports
      then (res, set_process k i (record (k.processes i) { last_errno = code }))
      else (raw ret, k)
]

abbrev is_suspended : Ret → Bool
is_suspended suspended = true
is_suspended _ = false

abbrev is_geterrno : Option Call → Bool
is_geterrno (some geterrno) = true
is_geterrno _ = false

-- What follows the dispatch, for the process `old` that made the call.
abbrev finish_call :
    (Regs → Kernel → Run (Regs × Kernel))
    → Idle
    → ℕ
    → Bool
    → Ret
    → Regs
    → Kernel
    → Run (Regs × Kernel)
finish_call resume idle old reports ret r k =
    if is_suspended ret
    then context_switch resume idle r k
    else (let (eax, k) = record_errno reports ret k in
        let k = set_process k old (record (k.processes old) { in_syscall = 0 }) in
        let r = record r { eax = eax } in
        if same_pid k.current old then done (r, k) else context_switch resume idle r k)

-- The warning for a number that no call has. What the array of kprintf holds at first does not show.
unfoldable pub unimplemented : Regs → Kernel → Run (Ret × Regs × Kernel)
unimplemented r k = do
  display ←
      kprint (replicate 4096 0) (codes "Warning: Call to unimplemented system call %d\n")
        (r.eax ∷ []) k.display
  done (error enosys, r, record k { display = display })

-- A process that is resumed makes its call once more: one unit of fuel for each such call.
unfoldable pub syscall : ℕ → Idle → Regs → Kernel → Run (Regs × Kernel)
syscall zero idle r k = stop no_fuel
syscall (suc fuel) idle r k = do
  i ← current_pid k
  let call = call_of r.eax
  let k = set_process k i (record (k.processes i) { in_syscall = r.eax })
  (ret, r, k) ← elim call [ none ↦ unimplemented r k | some c ↦ handler c r k ]
  finish_call (syscall fuel idle) idle i (not (is_geterrno call)) ret r k
