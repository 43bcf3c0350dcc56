-- ===== src/Process/Kill.antt =====
-- kill_process of source/process.c.
use adelaideos.Common.{
  ℕ, zero, suc, ◌+◌, Bool, true, false, ◌&&◌, Option, none, some, ◌==◌, if◌then◌else◌, update,
  for_below, Run, done, ◌>>=◌,
}
use adelaideos.Page.{unmap_range, free_page_dir}
use adelaideos.Kernel.{Process, Kernel, set_process, max_processes, max_fds}
use adelaideos.Process.{current_pid, remove_ready, remove_suspended, resume_process}
use adelaideos.Pipe.{kfree}
use adelaideos.FileDesc.{get_fd, close_filehandle}

abbrev pub syscall_waitpid_no : ℕ
syscall_waitpid_no = 14

-- `a == b` for pids, with `none` for -1
abbrev pub same_pid : Option ℕ → ℕ → Bool
same_pid none pid = false
same_pid (some p) pid = p == pid

unfoldable pub unlink : Kernel → ℕ → Kernel
unlink k i = if (k.processes i).ready then remove_ready k i else remove_suspended k i

unfoldable pub close_all : ℕ → Kernel → ℕ → ℕ → Run Kernel
close_all zero k i fd = done k
close_all (suc n) k i fd = do
  k ← elim (get_fd (k.processes i) fd) [ none ↦ done k | some fh ↦ close_filehandle k fh ]
  close_all n k i (fd + 1)

unfoldable pub free_memory : Kernel → ℕ → Run Kernel
free_memory k i = do
  let proc = k.processes i
  p ← unmap_range k.pages proc.pdir proc.stack_start proc.stack_end
  p ← unmap_range p proc.pdir proc.data_start proc.data_end
  p ← unmap_range p proc.pdir proc.text_start proc.text_end
  p ← free_page_dir p proc.pdir
  done (record k { pages = p })

abbrev free_mailbox : Kernel → ℕ → Run Kernel
free_mailbox k i = elim (k.processes i).mailbox [ none ↦ done k | some m ↦ kfree k m ]

-- The children of the process with this pid have no parent any more.
unfoldable pub orphan : ℕ → (ℕ → Process) → ℕ → Process
orphan pid t =
    for_below max_processes
      (λ c u.
        if same_pid (u c).parent_pid pid
        then update u c (record (u c) { parent_pid = none })
        else u)
      t

-- Without a parent the slot is free; a parent that waits for this process is woken.
unfoldable pub report_exit : Kernel → ℕ → Run Kernel
report_exit k i = elim (k.processes i).parent_pid [
  | none ↦ done (set_process k i (record (k.processes i) { exists = false }))
  | some q ↦
      let parent = k.processes q in
      if (syscall_waitpid_no == parent.in_syscall) && same_pid parent.waiting_on (k.processes i).pid
      then resume_process (set_process k q (record parent { waiting_on = none })) q
      else done k
]

-- `enable_paging(current_process->pdir)`, and `disable_paging()`
abbrev pub enable_paging : Kernel → Run Kernel
enable_paging k = do i ← current_pid k; done (record k { paging = some (k.processes i).pdir })

abbrev pub disable_paging : Kernel → Kernel
disable_paging k = record k { paging = none }

unfoldable pub kill_process : Kernel → ℕ → Run Kernel
kill_process k i = do
  let current = same_pid k.current i
  let k = record (disable_paging k) { current = if current then none else k.current }
  let k = unlink k i
  k ← close_all max_fds k i 0
  k ← free_memory k i
  k ← free_mailbox k i
  let k = record k { processes = orphan (k.processes i).pid k.processes }
  k ← report_exit k i
  let k = set_process k i (record (k.processes i) { exited = true })
  if current then done k else enable_paging k
