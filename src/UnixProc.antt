-- ===== src/UnixProc.antt =====
-- source/unixproc.c: fork, execve and waitpid. map_and_copy is in Page.
use adelaideos.Common.{
  ℕ, zero, suc, ◌+◌, ◌-◌, ◌*◌, ◌/◌, true, false, not, ◌||◌, Option, none, some, List, [], ◌∷◌, ◌++◌,
  length, ltb, ◌==◌, if◌then◌else◌, u32_mod, ℤ, checked_index, Run, done, stop, no_fuel, ◌>>=◌,
}
use adelaideos.Page.{
  Pages, page_size, alloc_page, identity_map, map_page, map_and_copy, unmap_range,
}
use adelaideos.Kernel.{
  Regs, Process, zero_process, Kernel, set_process, set_handle, max_processes, max_fds,
}
use adelaideos.Process.{init_regs, get_free_pid, current_pid, suspend_process, add_ready}
use adelaideos.Process.Start.{mb, stack_base, data_base, text_base}
use adelaideos.Process.Kill.{same_pid, enable_paging, disable_paging}
use adelaideos.UserMemory.{copy_in, copy_out, store_byte}
use adelaideos.Filesystem.{get_directory_entry, entry_type, entry_size, entry_location, type_dir}
use adelaideos.Pipe.{
  Ret, value, error, suspended, enoent, eisdir, efault, eagain, echild, kmalloc, kfree,
}
use adelaideos.FileDesc.{get_fd, set_fd}
use adelaideos.Pointers.{valid_pointer, read_path}
use adelaideos.FsCalls.{word_bytes, image_bytes}

abbrev child_of : Process → ℕ → ℕ → Process
child_of parent pid pdir = record zero_process {
  pid = pid;
  exists = true;
  parent_pid = some parent.pid;
  pdir = pdir;
  stack_start = parent.stack_start;
  stack_end = parent.stack_end;
  data_start = parent.data_start;
  data_end = parent.data_end;
  text_start = parent.text_start;
  text_end = parent.text_end;
}

-- The identity map of the first 6 MB, and the copies of the three segments.
unfoldable pub fork_pages : Pages → ℕ → Process → Run Pages
fork_pages p parent_dir child = do
  p ← identity_map p child.pdir 0 (6 * mb) (record { user = true; writable = false })
  p ← map_and_copy p parent_dir child.pdir child.text_start child.text_end
  p ← map_and_copy p parent_dir child.pdir child.data_start child.data_end
  map_and_copy p parent_dir child.pdir child.stack_start child.stack_end

-- The descriptors are copied one by one, and each handle gains a reference.
unfoldable pub share_fds : ℕ → Kernel → ℕ → ℕ → ℕ → Kernel
share_fds zero k parent child fd = k
share_fds (suc n) k parent child fd =
    let k' : Kernel = elim (get_fd (k.processes parent) fd) [
      | none ↦ k
      | some fh ↦
          let k = set_fd k child fd (some fh) in
          set_handle k fh (record (k.handles fh) { refcount = (k.handles fh).refcount + 1 })
    ] in
    share_fds n k' parent child (fd + 1)

unfoldable pub syscall_fork : Kernel → Regs → Run (Ret × Kernel)
syscall_fork k r = elim (get_free_pid k.processes) [
  | none ↦ done (error eagain, k)
  | some c ↦ (do
    i ← current_pid k
    let (pdir, p) = alloc_page k.pages
    let child = child_of (k.processes i) c pdir
    p ← fork_pages p (k.processes i).pdir child
    let k = record (set_process k c child) { pages = p; paging = some (k.processes i).pdir }
    let k = share_fds max_fds k i c 0
    let k = set_process k c (record (k.processes c) {
      saved_regs = record r { eax = 0 };
      cwd = (k.processes i).cwd;
      ready = true;
    })
    done (value c, add_ready k c))
]

-- A word of the memory of the current process.
unfoldable pub word_of : List ℕ → ℕ
word_of [] = 0
word_of (b ∷ bs) = b + 256 * word_of bs

unfoldable pub user_word : Kernel → ℕ → Run ℕ
user_word k a = do bytes ← copy_in k a 4; done (word_of bytes)

-- The loop over `argv` from `argno` on: the strings, or `none` for -EFAULT. An array that fills the
-- address space is refused before 2 ^ 32 rounds.
unfoldable pub read_argv : ℕ → Kernel → ℕ → ℕ → Run (Option (List (List ℕ)))
read_argv zero k argv argno = stop no_fuel
read_argv (suc fuel) k argv argno = do
  i ← current_pid k
  elim (valid_pointer (k.processes i) argv ((argno + 1) * 4)) [
    | false ↦ done none
    | true ↦ (do
      a ← user_word k (argv + 4 * argno)
      elim (a == 0) [
        | true ↦ done (some [])
        | false ↦ (do
          s ← read_path k a
          elim s [
            | none ↦ done none
            | some s ↦ (do
              rest ← read_argv fuel k argv (argno + 1)
              done (elim rest [ none ↦ none | some ss ↦ some (s ∷ ss) ]))
          ])
      ])
  ]

abbrev args_length : List (List ℕ) → ℕ
args_length [] = 0
args_length (s ∷ ss) = length s + 1 + args_length ss

unfoldable pub argdata_size : List (List ℕ) → ℕ
argdata_size args = args_length args + length args * 4 + 2 * 4

-- The pointers `newargv[0]`, … and the strings, which stand in the order opposite to the pointers;
-- `pos` is where the strings written so far begin.
abbrev arg_pointers : ℕ → ℕ → List (List ℕ) → List ℕ
arg_pointers size pos [] = []
arg_pointers size pos (s ∷ ss) =
    let pos = pos - (length s + 1) in
    word_bytes (stack_base - size + pos) ++ arg_pointers size pos ss

abbrev arg_strings : List (List ℕ) → List ℕ → List ℕ
arg_strings [] written = written
arg_strings (s ∷ ss) written = arg_strings ss (s ++ 0 ∷ written)

-- The block that goes to the bottom of the stack: argc, argv, the pointers, the strings.
unfoldable pub argdata : List (List ℕ) → List ℕ
argdata args =
    let size = argdata_size args in
    word_bytes (length args)
    ++ (word_bytes (stack_base - size + 8) ++ (arg_pointers size size args ++ arg_strings args []))

abbrev store_page : List ℕ → Pages → ℕ → Pages
store_page [] p phys = p
store_page (b ∷ bs) p phys = store_page bs (store_byte p phys b) (phys + 1)

-- for (pos = 0; pos < entry->size; pos += PAGE_SIZE), with the pages left; the result is the last `pos`.
unfoldable pub load_text : ℕ → Kernel → ℕ → ℕ → ℕ → Run (Kernel × ℕ)
load_text zero k i e pos = done (k, pos)
load_text (suc n) k i e pos = do
  let left = entry_size k.filesystem e - pos
  let start = entry_location k.filesystem e + pos
  let bytes = image_bytes (if ltb left page_size then left else page_size) k.filesystem start
  let (page, p) = alloc_page k.pages
  p ←
      map_page (store_page bytes p page) (k.processes i).pdir ((k.processes i).text_start + pos)
        page (record { user = true; writable = true })
  load_text n (record k { pages = p }) i e (pos + page_size)

-- The old text and data are unmapped and the new text is loaded.
unfoldable pub replace_text : Kernel → ℕ → ℕ → Run Kernel
replace_text k i e = do
  let proc = k.processes i
  p ← unmap_range k.pages proc.pdir proc.text_start proc.text_end
  p ← unmap_range p proc.pdir proc.data_start proc.data_end
  let k =
      set_process (record (disable_paging k) { pages = p }) i
        (record proc {
          text_start = text_base;
          text_end = text_base;
          data_start = data_base;
          data_end = data_base;
        })
  (k, pos) ← load_text ((entry_size k.filesystem e + 4095) / page_size) k i e 0
  let proc = k.processes i
  done (set_process k i (record proc { text_end = proc.text_start + pos }))

abbrev run_file : Kernel → ℕ → ℕ → List (List ℕ) → Run (Ret × Regs × Kernel)
run_file k i e args = do
  (block, k) ← kmalloc k (argdata_size args)
  k ← replace_text k i e
  k ← enable_paging k
  k ← copy_out k (stack_base - argdata_size args) (argdata args)
  k ← kfree k block
  done (value 0, init_regs (stack_base - argdata_size args) (k.processes i).text_start, k)

unfoldable pub syscall_execve : Kernel → ℕ → ℕ → Regs → Run (Ret × Regs × Kernel)
syscall_execve k filename argv r = do
  i ← current_pid k
  name ← read_path k filename
  elim name [
    | none ↦ done (error efault, r, k)
    | some path ↦ (do
      args ← if argv == 0 then done (some []) else read_argv u32_mod k argv 0
      elim args [
        | none ↦ done (error efault, r, k)
        | some args ↦ elim (get_directory_entry k.filesystem path) [
          | none ↦ done (error enoent, r, k)
          | some e ↦
              if entry_type k.filesystem e == type_dir
              then done (error eisdir, r, k)
              else run_file k i e args
        ]
      ])
  ]

-- `status` is a pointer, and 0 is NULL.
abbrev reap : Kernel → ℕ → ℕ → Run (Ret × Kernel)
reap k c status = do
  k ← if status == 0 then done k else copy_out k status (word_bytes (k.processes c).exit_status)
  done (value c, set_process k c (record (k.processes c) { exists = false }))

abbrev wait_for : Kernel → ℕ → ℕ → Run (Ret × Kernel)
wait_for k i c = do
  k ← suspend_process (set_process k i (record (k.processes i) { waiting_on = some c })) i
  done (suspended, k)

unfoldable pub syscall_waitpid : Kernel → ℤ → ℕ → Run (Ret × Kernel)
syscall_waitpid k pid status = elim (checked_index pid max_processes) [
  | none ↦ done (error echild, k)
  | some c ↦ (do
    i ← current_pid k
    let k = set_process k i (record (k.processes i) { waiting_on = none })
    let child = k.processes c
    if not child.exists || not (same_pid child.parent_pid (k.processes i).pid)
        then done (error echild, k)
        else if child.exited
        then reap k c status
        else wait_for k i c)
]
