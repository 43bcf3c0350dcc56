-- ===== src/Process/Switch.antt =====
-- context_switch of source/process.c. `r` is the register frame of the interrupt.
use adelaideos.Common.{ℕ, Option, none, some, ◌==◌, if◌then◌else◌, Run, done}
use adelaideos.Kernel.{Regs, Kernel, set_process}
use adelaideos.Process.{init_regs}

-- The process that is next: the one behind the current process in the ready list, or the first. A
-- process that is not ready any more does not count as current. (Where `current_process` is NULL the
-- code reads `current_process->ready` through it; whatever it reads, the result is NULL.)
unfoldable pub next_process : Kernel → Option ℕ
next_process k = elim k.current [
  | none ↦ k.ready.first
  | some i ↦
      if (k.processes i).ready
      then elim (k.processes i).next [ none ↦ k.ready.first | some n ↦ some n ]
      else k.ready.first
]

unfoldable pub save_regs : Kernel → Regs → Kernel
save_regs k r = elim k.current [
  | none ↦ k
  | some i ↦ set_process k i (record (k.processes i) { saved_regs = r })
]

-- The idle stack and the idle routine of source/start.s: where they are, is the linker's choice.
pub record Idle : Type 0 where
  pub stack_end : ℕ
  pub start : ℕ

-- `resume` is the call of `syscall`, for a process that was suspended in one.
unfoldable pub context_switch :
    (Regs → Kernel → Run (Regs × Kernel)) → Idle → Regs → Kernel → Run (Regs × Kernel)
context_switch resume idle r k =
    let k = save_regs k r in
    elim (next_process k) [
      | none ↦ done (init_regs idle.stack_end idle.start, record k { current = none })
      | some i ↦
          let r = (k.processes i).saved_regs in
          let k = record k { current = some i; paging = some (k.processes i).pdir } in
          if (k.processes i).in_syscall == 0 then done (r, k) else resume r k
    ]
