-- ===== src/Syscall.antt =====
-- source/syscall.c: the calls that other files do not hold, and the dispatch.
pub mod Dispatch
pub mod Mailbox
pub mod Receive
pub mod Waking
use adelaideos.Common.{
  ℕ, update, zero, suc, ◌+◌, ◌-◌, ◌*◌, ◌/◌, ◌%◌, ◌^◌, Bool, true, false, not, ◌||◌, Option, none,
  some, List, [], ◌∷◌, ◌++◌, length, get_or, take, drop, ltb, leb, ◌==◌, if◌then◌else◌, u32_mod, ℤ,
  checked_index, Run, done, ◌>>=◌,
}
use adelaideos.Page.{page_size, map_new_pages}
use adelaideos.Kernel.{
  HandleType, screen, pipe_writer, pipe_reader, file, dir, Message, Process, Kernel, set_process,
  max_processes,
}
use adelaideos.Process.{current_pid, suspend_process, resume_process}
use adelaideos.Process.Kill.{kill_process, disable_paging, enable_paging}
use adelaideos.UserMemory.{copy_in, copy_out}
use adelaideos.Pipe.{
  Ret, value, error, suspended, ebadf, einval, esrch, enomem, efault, eagain, kmalloc,
  pipe_writer_write, pipe_writer_read, pipe_reader_write, pipe_reader_read,
}
use adelaideos.FileDesc.{screen_write, screen_read, handle_of}
use adelaideos.FsCalls.{file_write, file_read, word_bytes}
use adelaideos.Pointers.{valid_pointer}

unfoldable pub syscall_getpid : Kernel → Run (Ret × Kernel)
syscall_getpid k = do i ← current_pid k; done (value (k.processes i).pid, k)

unfoldable pub syscall_exit : Kernel → ℕ → Run (Ret × Kernel)
syscall_exit k status = do
  i ← current_pid k
  let k = set_process (disable_paging k) i (record (k.processes i) { exit_status = status })
  k ← kill_process k i
  done (suspended, k)

-- `fh->write(fh,buf,count)` and `fh->read(fh,buf,count)`
unfoldable pub handle_write : HandleType → Kernel → ℕ → List ℕ → Run (Ret × Kernel)
handle_write screen k fh buf = screen_write k fh buf
handle_write pipe_writer k fh buf = pipe_writer_write k fh buf
handle_write pipe_reader k fh buf = pipe_reader_write k fh buf
handle_write file k fh buf = file_write k fh buf
handle_write dir k fh buf = file_write k fh buf

unfoldable pub handle_read : HandleType → Kernel → ℕ → ℕ → ℕ → Run (Ret × Kernel)
handle_read screen k fh buf count = screen_read k fh buf count
handle_read pipe_writer k fh buf count = pipe_writer_read k fh buf count
handle_read pipe_reader k fh buf count = pipe_reader_read k fh buf count
handle_read file k fh buf count = file_read file k fh buf count
handle_read dir k fh buf count = file_read dir k fh buf count

-- The bytes are read from the memory of the process before the handler runs.
unfoldable pub syscall_write : Kernel → ℤ → ℕ → ℕ → Run (Ret × Kernel)
syscall_write k fd buf count = do
  i ← current_pid k
  elim (valid_pointer (k.processes i) buf count) [
    | false ↦ done (error efault, k)
    | true ↦ elim (handle_of k i fd) [
      | none ↦ done (error ebadf, k)
      | some (n, fh) ↦ (do bytes ← copy_in k buf count; handle_write (k.handles fh).type k fh bytes)
    ]
  ]

unfoldable pub syscall_read : Kernel → ℤ → ℕ → ℕ → Run (Ret × Kernel)
syscall_read k fd buf count = do
  i ← current_pid k
  elim (valid_pointer (k.processes i) buf count) [
    | false ↦ done (error efault, k)
    | true ↦ elim (handle_of k i fd) [
      | none ↦ done (error ebadf, k)
      | some (n, fh) ↦ handle_read (k.handles fh).type k fh buf count
    ]
  ]

unfoldable pub syscall_geterrno : Kernel → Run (Ret × Kernel)
syscall_geterrno k = do i ← current_pid k; done (value (k.processes i).last_errno, k)

-- The end of the data segment, rounded up to a page in unsigned arithmetic.
unfoldable pub round_up : ℕ → ℕ
round_up a = if a % page_size == 0 then a else (a / page_size + 1) * page_size % u32_mod

abbrev pub grow_data : Kernel → ℕ → ℕ → Run (Ret × Kernel)
grow_data k i end = do
  let proc = k.processes i
  let count = (round_up end + u32_mod - proc.data_end) % u32_mod / page_size
  p ← map_new_pages k.pages proc.pdir proc.data_end count
  k ← enable_paging (record (disable_paging k) { pages = p })
  done (value 0, set_process k i (record (k.processes i) { data_end = round_up end }))

unfoldable pub syscall_brk : Kernel → ℕ → Run (Ret × Kernel)
syscall_brk k newend = do
  i ← current_pid k
  elim (leb newend (k.processes i).data_end) [
    | true ↦ done (value 0, k)
    | false ↦ grow_data k i newend
  ]

unfoldable pub syscall_kill : Kernel → ℤ → Run (Ret × Kernel)
syscall_kill k pid = elim (checked_index pid max_processes) [
  | none ↦ done (error esrch, k)
  | some n ↦ if not (k.processes n).exists then done (error esrch, k) else (do
    i ← current_pid k
    let r = if n == (k.processes i).pid then suspended else value 0
    k ← kill_process k n
    done (r, k))
]

abbrev pub max_message_size : ℕ
max_message_size = 1024

-- sizeof(message)
abbrev pub sizeof_message : ℕ
sizeof_message = 1036

-- A slot at the end of the mailbox: `none` if all `mailbox_alloc` of them are taken.
unfoldable pub open_slot : Kernel → ℕ → Run (Option Kernel)
open_slot k to = elim (k.processes to).mailbox [
  | none ↦ (do
    (m, k) ← kmalloc k (8 * sizeof_message)
    done (
        some (
          set_process k to (record (k.processes to) {
            mailbox = some m;
            messages = [];
            mailbox_size = 1;
            mailbox_alloc = 8;
          }))))
  | some m ↦
      let dest = k.processes to in
      if ltb dest.mailbox_size dest.mailbox_alloc
      then done (some (set_process k to (record dest { mailbox_size = dest.mailbox_size + 1 })))
      else done none
]

-- The bytes of a message, and behind them what the slot held.
abbrev pub slot_data : List ℕ → List ℕ → List ℕ
slot_data bytes held = bytes ++ drop (length bytes) held

-- The message is stored in the last slot, and a receiver that waits is woken.
abbrev pub deliver : Kernel → ℕ → Message → Run (Ret × Kernel)
deliver k to msg = do
  let dest = k.processes to
  let k = set_process k to (record dest {
    messages = take (dest.mailbox_size - 1) dest.messages ++ msg ∷ [];
    slots =
        update dest.slots (dest.mailbox_size - 1)
          (slot_data msg.bytes (dest.slots (dest.mailbox_size - 1)));
  })
  k ←
      if (k.processes to).receive_blocked
      then (do
        k ← resume_process k to
        done (set_process k to (record (k.processes to) { receive_blocked = false })))
      else done k
  done (value 0, k)

abbrev pub store_message : Kernel → ℕ → ℕ → ℕ → List ℕ → Run (Ret × Kernel)
store_message k i to tag bytes = do
  slot ← open_slot k to
  elim slot [
    | none ↦ done (error enomem, k)
    | some k ↦
        deliver k to
          (record { from = (k.processes i).pid; tag = tag; size = length bytes; bytes = bytes })
  ]

unfoldable pub syscall_send : Kernel → ℤ → ℕ → ℕ → ℕ → Run (Ret × Kernel)
syscall_send k to tag data_at size = do
  i ← current_pid k
  elim (valid_pointer (k.processes i) data_at size) [
    | false ↦ done (error efault, k)
    | true ↦ elim (checked_index to max_processes) [
      | none ↦ done (error esrch, k)
      | some n ↦
          if not (k.processes n).exists
          then done (error esrch, k)
          else if ltb max_message_size size
          then done (error einval, k)
          else (do bytes ← copy_in k data_at size; store_message k i n tag bytes)
    ]
  ]

-- A slot in memory: from, tag and size, and the whole array `data`.
abbrev pub message_bytes : Message → List ℕ → List ℕ
message_bytes m held =
    word_bytes m.from ++ (word_bytes m.tag ++ (word_bytes m.size ++ slot_data m.bytes held))

abbrev pub no_contents : Message
no_contents = record { from = 0; tag = 0; size = 0; bytes = [] }

-- memmove of the slots behind the first of `size`
abbrev pub moved_up : ℕ → (ℕ → List ℕ) → ℕ → List ℕ
moved_up size slots j = if ltb j (size - 1) then slots (j + 1) else slots j

-- The first message, copied to the process, and the others moved up.
abbrev pub take_message : Kernel → ℕ → ℕ → Run (Ret × Kernel)
take_message k i msg = do
  k ←
      copy_out k msg
        (message_bytes (get_or (k.processes i).messages 0 no_contents) ((k.processes i).slots 0))
  let p = k.processes i
  done (
    value 0,
    set_process k i (record p {
      messages = drop 1 p.messages;
      mailbox_size = p.mailbox_size - 1;
      slots = moved_up p.mailbox_size p.slots;
    }),
  )

abbrev pub no_message : Kernel → ℕ → Bool → Run (Ret × Kernel)
no_message k i false = done (error eagain, k)
no_message k i true = do
  k ← suspend_process (set_process k i (record (k.processes i) { receive_blocked = true })) i
  done (suspended, k)

unfoldable pub syscall_receive : Kernel → ℕ → Bool → Run (Ret × Kernel)
syscall_receive k msg block = do
  i ← current_pid k
  elim (valid_pointer (k.processes i) msg sizeof_message) [
    | false ↦ done (error efault, k)
    | true ↦
        if ltb 0 (k.processes i).mailbox_size then take_message k i msg else no_message k i block
  ]
