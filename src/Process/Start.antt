-- ===== src/Process/Start.antt =====
-- start_process of source/process.c.
use adelaideos.Common.{ℕ, ◌-◌, ◌*◌, ◌/◌, true, false, Option, none, some, [], ◌∷◌, Run, done, ◌>>=◌}
use adelaideos.Page.{page_size, alloc_page, identity_map, map_new_pages}
use adelaideos.Kernel.{Process, zero_process, Kernel, set_process}
use adelaideos.Process.{init_regs, get_free_pid, add_ready}
use adelaideos.Pipe.{new_pipe, new_pipe_reader}
use adelaideos.FileDesc.{new_screen_handle, set_fd}

abbrev pub mb : ℕ
mb = 1048576

abbrev pub stack_base : ℕ
stack_base = 0x40000000

abbrev pub stack_size : ℕ
stack_size = 64 * 1024

abbrev pub data_base : ℕ
data_base = 0x20000000

abbrev pub text_base : ℕ
text_base = 0x10000000

-- KERNEL_CODE_START and KERNEL_CODE_END, which the linker defines.
pub record CodeRange : Type 0 where
  pub start : ℕ
  pub end : ℕ

-- The page directory of a new process, with its stack.
unfoldable pub first_pages : Kernel → CodeRange → Run (ℕ × Kernel)
first_pages k code = do
  let (pdir, p) = alloc_page k.pages
  p ← identity_map p pdir 0 (6 * mb) (record { user = false; writable = false })
  p ← identity_map p pdir code.start code.end (record { user = true; writable = false })
  p ← map_new_pages p pdir (stack_base - stack_size) (stack_size / page_size)
  done (pdir, record k { pages = p })

-- The three standard descriptors.
unfoldable pub first_handles : Kernel → ℕ → Run Kernel
first_handles k pid = do
  (b, k) ← new_pipe k
  (input, k) ← new_pipe_reader k b
  let k = set_fd k pid 0 (some input)
  (output, k) ← new_screen_handle k
  let k = set_fd k pid 1 (some output)
  (errors, k) ← new_screen_handle k
  done (set_fd k pid 2 (some errors))

abbrev pub fresh_process : ℕ → Process
fresh_process pid = record zero_process {
  pid = pid;
  exists = true;
  stack_start = stack_base - stack_size;
  stack_end = stack_base;
  data_start = data_base;
  data_end = data_base;
  text_start = text_base;
  text_end = text_base;
  parent_pid = none;
  waiting_on = none;
  exit_status = 255;
}

-- `none` is the result -1.
unfoldable pub start_process : Kernel → CodeRange → ℕ → Run (Option ℕ × Kernel)
start_process k code start_address = elim (get_free_pid k.processes) [
  | none ↦ done (none, k)
  | some pid ↦ (do
    let k = set_process k pid (fresh_process pid)
    (pdir, k) ← first_pages k code
    k ← first_handles (set_process k pid (record (k.processes pid) { pdir = pdir })) pid
    let p = k.processes pid
    let k =
        set_process k pid (record p {
          cwd = 47 ∷ [];
          saved_regs = init_regs stack_base start_address;
          ready = true;
        })
    done (some pid, add_ready k pid))
]
