-- ===== src/Process.antt =====
-- source/process.c, its first part: init_regs, get_free_pid, suspend_process and resume_process.
-- Starting, killing and switching stand in the child modules, which need the file descriptors.
pub mod Lists
pub mod Frame
pub mod FreePid
pub mod RoundRobin
pub mod Start
pub mod Kill
pub mod Switch
use adelaideos.Common.{
  ℕ, zero, suc, ◌+◌, Bool, true, false, not, Option, none, some, if◌then◌else◌, Run, done, stop,
  null_access, ◌>>◌, assert,
}
use adelaideos.Kernel.{Regs, zero_regs, Process, Kernel, set_process}
use adelaideos.ProcessList.{list_add, list_remove}

-- `SEGMENT|RING_3` for the user segments 0x18 and 0x20.
abbrev pub user_code : ℕ
user_code = 0x1b

abbrev pub user_data : ℕ
user_data = 0x23

-- The loop over the bytes of `*r` sets all fields to 0.
unfoldable pub init_regs : ℕ → ℕ → Regs
init_regs stack_max start_addr = record zero_regs {
  gs = user_data;
  fs = user_data;
  es = user_data;
  ds = user_data;
  eip = start_addr;
  cs = user_code;
  eflags = 0x202;
  useresp = stack_max;
  ss = user_data;
}

-- The rounds left are `MAX_PROCESSES - pid`; `none` is -1.
unfoldable pub free_pid_loop : ℕ → (ℕ → Process) → ℕ → Option ℕ
free_pid_loop zero t pid = none
free_pid_loop (suc rounds) t pid =
    let rest = free_pid_loop rounds t (pid + 1) in if (t pid).exists then rest else some pid

unfoldable pub get_free_pid : (ℕ → Process) → Option ℕ
get_free_pid t = free_pid_loop 31 t 1

-- `current_process`, where the code follows the pointer.
abbrev pub current_pid : Kernel → Run ℕ
current_pid k = elim k.current [ none ↦ stop null_access | some i ↦ done i ]

abbrev pub add_ready : Kernel → ℕ → Kernel
add_ready k i =
    let r = list_add k.processes k.ready i in record k { processes = r.table; ready = r.head }

abbrev pub add_suspended : Kernel → ℕ → Kernel
add_suspended k i =
    let r = list_add k.processes k.suspended i in
    record k { processes = r.table; suspended = r.head }

abbrev pub remove_ready : Kernel → ℕ → Kernel
remove_ready k i =
    let r = list_remove k.processes k.ready i in record k { processes = r.table; ready = r.head }

abbrev pub remove_suspended : Kernel → ℕ → Kernel
remove_suspended k i =
    let r = list_remove k.processes k.suspended i in
    record k { processes = r.table; suspended = r.head }

abbrev pub set_ready : Kernel → ℕ → Bool → Kernel
set_ready k i b = set_process k i (record (k.processes i) { ready = b })

unfoldable pub suspend_process : Kernel → ℕ → Run Kernel
suspend_process k i = do
  assert (k.processes i).exists
  assert (k.processes i).ready
  done (add_suspended (remove_ready (set_ready k i false) i) i)

unfoldable pub resume_process : Kernel → ℕ → Run Kernel
resume_process k i = do
  assert (k.processes i).exists
  assert (not (k.processes i).ready)
  done (add_ready (remove_suspended (set_ready k i true) i) i)
