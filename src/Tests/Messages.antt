-- ===== src/Tests/Messages.antt =====
-- Examples for the mailboxes. The process 1 has a page at 0x3000, and the process 2 a mailbox.
use adelaideos.Common.{
  ℕ, ◌≡◌, true, false, none, some, List, [], ◌∷◌, ◌==◌, if◌then◌else◌, pos, refl, arith, Run, done,
  stop,
}
use adelaideos.Kernel.{Message, Process, Kernel}
use adelaideos.Page.{Pages}
use adelaideos.Process.Lists.{IsScheduled}
use adelaideos.Process.Frame.{IsScheduled-frame}
use adelaideos.UserMemory.{translate, load_byte, store_byte, load_bytes, store_bytes, copy_in}
use adelaideos.Pipe.{value, error, suspended, enomem}
use adelaideos.Pointers.{valid_pointer}
use adelaideos.Syscall.{message_bytes, syscall_send, syscall_receive, sizeof_message}
use adelaideos.Syscall.Mailbox.{
  IsMailbox, IsSend, message_from, syscall_send-queue, syscall_send-full,
}
use adelaideos.Syscall.Waking.{syscall_send-wakes}
use adelaideos.Syscall.Receive.{syscall_receive-queue, syscall_receive-waits}
use adelaideos.Tests.States.{table, memory, pipe_with, kernel_with, kernel_with-IsScheduled}

abbrev greeting : Message
greeting = record { from = 3; tag = 9; size = 1; bytes = 72 ∷ [] }

abbrev with_page : List Message → ℕ → ℕ → Process → Process
with_page ms size alloc p = record p {
  pdir = 0x601000;
  data_start = 0x3000;
  data_end = 0x4000;
  mailbox = some 32;
  messages = ms;
  mailbox_size = size;
  mailbox_alloc = alloc;
  slots = λ _. 72 ∷ 8 ∷ [];
}

-- All processes have the messages `ms` in a mailbox with `alloc` slots.
abbrev posted : List Message → ℕ → ℕ → Kernel
posted ms size alloc = record (kernel_with (pipe_with [] 0 none)) {
  processes = λ i. with_page ms size alloc (table i);
  pages = record memory {
    words = λ a. if a == 0x601000 then 0x602007 else if a == 0x60200c then 0x604007 else 0;
  };
}

posted-IsSend :
    (ms : List Message) (size alloc : ℕ)
    → IsSend (posted ms size alloc) 1 (pos 2) 2 0x3001 1 (0 ∷ [])
unfolding valid_pointer copy_in load_bytes translate load_byte
posted-IsSend ms size alloc = record {
  current = refl;
  valid = refl;
  target = refl;
  exists = refl;
  short = omega arith;
  copied = refl;
}

syscall_send-queue_example :
    (k' : Kernel) × (syscall_send (posted (greeting ∷ []) 1 8) (pos 2) 5 0x3001 1
      ≡ done (value 0, k'))
    × ((k'.processes 2).messages
        ≡ greeting ∷ message_from (posted (greeting ∷ []) 1 8) 1 5 (0 ∷ []) ∷ [])
    × IsMailbox (k'.processes 2)
syscall_send-queue_example =
    syscall_send-queue (posted (greeting ∷ []) 1 8) 1 (pos 2) 2 5 0x3001 1 32 (0 ∷ [])
      (posted-IsSend (greeting ∷ []) 1 8) refl refl (omega arith) refl

syscall_send-full_example :
    syscall_send (posted (greeting ∷ []) 1 1) (pos 2) 5 0x3001 1
    ≡ done (error enomem, posted (greeting ∷ []) 1 1)
syscall_send-full_example =
    syscall_send-full (posted (greeting ∷ []) 1 1) 1 (pos 2) 2 5 0x3001 1 32 (0 ∷ [])
      (posted-IsSend (greeting ∷ []) 1 1) refl (omega arith)

abbrev written : Run Pages → Pages
written (done p) = p
written (stop _) = memory

abbrev taken : Pages
taken = written (
    store_bytes (message_bytes greeting (72 ∷ 8 ∷ [])) (Kernel.pages (posted (greeting ∷ []) 1 8))
      0x601000 0x3001)

valid_buffer :
    (ms : List Message) (size : ℕ)
    → valid_pointer (Kernel.processes (posted ms size 8) 1) 0x3001 sizeof_message ≡ true
unfolding valid_pointer
valid_buffer ms size = refl

fits :
    store_bytes
      (message_bytes greeting (72 ∷ 8 ∷ []))
      (Kernel.pages (posted (greeting ∷ []) 1 8))
      0x601000
      0x3001
    ≡ done taken
unfolding store_bytes translate store_byte
fits = refl

syscall_receive-queue_example :
    (k' : Kernel) × (syscall_receive (posted (greeting ∷ []) 1 8) 0x3001 false ≡ done (value 0, k'))
    × (k'.pages ≡ taken)
    × ((k'.processes 1).messages ≡ [])
    × IsMailbox (k'.processes 1)
syscall_receive-queue_example =
    syscall_receive-queue (posted (greeting ∷ []) 1 8) 1 0x3001 false greeting [] taken refl
      (valid_buffer (greeting ∷ []) 1) refl refl fits

posted-IsScheduled : IsScheduled (posted [] 0 8) (1 ∷ 2 ∷ []) (3 ∷ [])
posted-IsScheduled =
    IsScheduled-frame (kernel_with (pipe_with [] 0 none)) (posted [] 0 8) (1 ∷ 2 ∷ []) (3 ∷ []) refl
      refl (λ y. (refl, refl, refl, refl)) (kernel_with-IsScheduled (pipe_with [] 0 none))

syscall_receive-waits_example :
    (k' : Kernel) × (syscall_receive (posted [] 0 8) 0x3001 true ≡ done (suspended, k'))
    × ((k'.processes 1).receive_blocked ≡ true)
    × IsScheduled k' (2 ∷ []) (1 ∷ 3 ∷ [])
syscall_receive-waits_example =
    syscall_receive-waits (posted [] 0 8) 1 0x3001 [] (2 ∷ []) (3 ∷ []) refl (valid_buffer [] 0)
      refl posted-IsScheduled

-- The process 3 is suspended and waits for a message.
abbrev expectant : Kernel
expectant = record (posted [] 0 8) {
  processes = λ i. record (with_page [] 0 8 (table i)) { receive_blocked = i == 3 };
}

expectant-IsSend : IsSend expectant 1 (pos 3) 3 0x3001 1 (0 ∷ [])
unfolding valid_pointer copy_in load_bytes translate load_byte
expectant-IsSend = record {
  current = refl;
  valid = refl;
  target = refl;
  exists = refl;
  short = omega arith;
  copied = refl;
}

expectant-IsScheduled : IsScheduled expectant (1 ∷ 2 ∷ []) (3 ∷ [])
expectant-IsScheduled =
    IsScheduled-frame (kernel_with (pipe_with [] 0 none)) expectant (1 ∷ 2 ∷ []) (3 ∷ []) refl refl
      (λ y. (refl, refl, refl, refl)) (kernel_with-IsScheduled (pipe_with [] 0 none))

syscall_send-wakes_example :
    (k' : Kernel) × (syscall_send expectant (pos 3) 5 0x3001 1 ≡ done (value 0, k'))
    × ((k'.processes 3).messages ≡ message_from expectant 1 5 (0 ∷ []) ∷ [])
    × IsMailbox (k'.processes 3)
    × ((k'.processes 3).receive_blocked ≡ false)
    × IsScheduled k' (3 ∷ 1 ∷ 2 ∷ []) []
syscall_send-wakes_example =
    syscall_send-wakes expectant 1 (pos 3) 3 5 0x3001 1 32 (0 ∷ []) (1 ∷ 2 ∷ []) [] []
      expectant-IsSend refl refl (omega arith) refl expectant-IsScheduled
