-- ===== src/Syscall/Mailbox.antt =====
-- A mailbox as a queue of messages with a bound.
use adelaideos.Common.{
  ℕ, ◌+◌, ◌-◌, ◌≤◌, ◌<◌, ◌≡◌, refl, sym, ap, ◌∙◌, inl, inr, eq_or_ne, ne→==, true, false, none,
  some, List, [], ◌∷◌, ◌++◌, length, take, length-append, take-all, le→ltb, eq→==, update,
  update_self, subst, ℤ, checked_index, done, stop, null_access, >>=-done, arith,
}
use adelaideos.Kernel.{Message, Process, Kernel, set_process, max_processes}
use adelaideos.Process.{current_pid}
use adelaideos.UserMemory.{copy_in}
use adelaideos.Pipe.{value, error, enomem}
use adelaideos.Pointers.{valid_pointer}
use adelaideos.Syscall.{
  slot_data, open_slot, deliver, store_message, syscall_send, max_message_size,
}

-- The mailbox holds as many messages as it says.
abbrev pub IsMailbox : Process → Type 0
IsMailbox p = length p.messages ≡ p.mailbox_size

abbrev pub message_from : Kernel → ℕ → ℕ → List ℕ → Message
message_from k i tag bytes = record {
  from = (k.processes i).pid;
  tag = tag;
  size = length bytes;
  bytes = bytes;
}

-- The destination with the message in its mailbox.
abbrev pub with_message : Process → Message → Process
with_message p msg = record p {
  mailbox_size = p.mailbox_size + 1;
  messages = take (p.mailbox_size + 1 - 1) p.messages ++ msg ∷ [];
  slots =
      update p.slots (p.mailbox_size + 1 - 1)
        (slot_data msg.bytes (p.slots (p.mailbox_size + 1 - 1)));
}

abbrev pub one_longer : Process → Process
one_longer p = record p { mailbox_size = p.mailbox_size + 1 }

abbrev pub stored : Kernel → ℕ → Message → Kernel
stored k to msg =
    set_process (set_process k to (one_longer (k.processes to))) to
      (with_message (k.processes to) msg)

pub with_message_lem :
    (p : Process) (msg : Message)
    → IsMailbox p
    → ((with_message p msg).messages ≡ p.messages ++ msg ∷ []) × IsMailbox (with_message p msg)
with_message_lem p msg h =
    let e : take (p.mailbox_size + 1 - 1) p.messages ≡ p.messages =
      take-all (p.mailbox_size + 1 - 1) p.messages (omega (arith, h)) in
    (ap (λ l. l ++ msg ∷ []) e, rw e (omega (arith, h, length-append p.messages (msg ∷ []))))

open_slot-room :
    (k : Kernel) (to m : ℕ)
    → (k.processes to).mailbox ≡ some m
    → (k.processes to).mailbox_size < (k.processes to).mailbox_alloc
    → open_slot k to ≡ done (some (set_process k to (one_longer (k.processes to))))
unfolding open_slot
open_slot-room k to m mb room = ground (arith, mb, room)

open_slot-full :
    (k : Kernel) (to m : ℕ)
    → (k.processes to).mailbox ≡ some m
    → (k.processes to).mailbox_alloc ≤ (k.processes to).mailbox_size
    → open_slot k to ≡ done none
unfolding open_slot
open_slot-full k to m mb full =
    rw (open_slot, mb, le→ltb (k.processes to).mailbox_size (k.processes to).mailbox_alloc full)
      refl

one_longer-pid :
    (k : Kernel) (i to : ℕ)
    → ((set_process k to (one_longer (k.processes to))).processes i).pid ≡ (k.processes i).pid
one_longer-pid k i to = elim (eq_or_ne to i) [
  | inl e ↦ rw (eq→== to i e, e) refl
  | inr n ↦ rw (ne→== to i n) refl
]

deliver-asleep :
    (k : Kernel) (to : ℕ) (msg : Message)
    → (k.processes to).receive_blocked ≡ false
    → deliver (set_process k to (one_longer (k.processes to))) to msg
      ≡ done (value 0, stored k to msg)
deliver-asleep k to msg awake = rw (eq→== to to refl, awake) refl

-- What `store_message` does once there is a slot.
pub store_message-slot :
    (k : Kernel) (i to tag m : ℕ) (bytes : List ℕ)
    → (k.processes to).mailbox ≡ some m
    → (k.processes to).mailbox_size < (k.processes to).mailbox_alloc
    → store_message k i to tag bytes
      ≡ deliver (set_process k to (one_longer (k.processes to))) to (message_from k i tag bytes)
store_message-slot k i to tag m bytes mb room =
    let k1 = set_process k to (one_longer (k.processes to)) in
    rw (open_slot-room k to m mb room) (
      ap (λ q. deliver k1 to (record { from = q; tag = tag; size = length bytes; bytes = bytes }))
        (one_longer-pid k i to))

store_message-full :
    (k : Kernel) (i to tag m : ℕ) (bytes : List ℕ)
    → (k.processes to).mailbox ≡ some m
    → (k.processes to).mailbox_alloc ≤ (k.processes to).mailbox_size
    → store_message k i to tag bytes ≡ done (error enomem, k)
store_message-full k i to tag m bytes mb full = rw (open_slot-full k to m mb full) refl

-- A call by the process `i` to send the bytes that it has at `at` to the existing process `to`.
pub record IsSend (k : Kernel) (i : ℕ) (pid : ℤ) (to at size : ℕ) (bytes : List ℕ) : Type 0 where
  pub current : k.current ≡ some i
  pub valid : valid_pointer (k.processes i) at size ≡ true
  pub target : checked_index pid max_processes ≡ some to
  pub exists : (k.processes to).exists ≡ true
  pub short : size ≤ max_message_size
  pub copied : copy_in k at size ≡ done bytes

pub syscall_send-stores :
    (k : Kernel) (i : ℕ) (pid : ℤ) (to tag at size : ℕ) (bytes : List ℕ)
    → IsSend k i pid to at size bytes
    → syscall_send k pid tag at size ≡ store_message k i to tag bytes
unfolding syscall_send
syscall_send-stores k i pid to tag at size bytes h =
    let now : current_pid k ≡ done i =
      ap (λ c. elim c [ none ↦ stop null_access | some j ↦ done j ]) h.current in
    >>=-done (current_pid k) _ i now
    ∙ rw (h.valid, h.target, h.exists, le→ltb max_message_size size h.short, h.copied) refl

-- A valid call that sends to a process with room in its mailbox, which does not wait for a message,
-- succeeds: the message, with the pid of the sender, is behind those that are there.
pub syscall_send-queue :
    (k : Kernel) (i : ℕ) (pid : ℤ) (to tag at size m : ℕ) (bytes : List ℕ)
    → IsSend k i pid to at size bytes
    → IsMailbox (k.processes to)
    → (k.processes to).mailbox ≡ some m
    → (k.processes to).mailbox_size < (k.processes to).mailbox_alloc
    → (k.processes to).receive_blocked ≡ false
    → (k' : Kernel) × (syscall_send k pid tag at size ≡ done (value 0, k'))
      × ((k'.processes to).messages ≡ (k.processes to).messages ++ message_from k i tag bytes ∷ [])
      × IsMailbox (k'.processes to)
syscall_send-queue k i pid to tag at size m bytes call box mb room awake =
    let msg = message_from k i tag bytes in
    let k1 = set_process k to (one_longer (k.processes to)) in
    let w = with_message_lem (k.processes to) msg box in
    let here : (stored k to msg).processes to ≡ with_message (k.processes to) msg =
      update_self k1.processes to (with_message (k.processes to) msg) in
    (
      stored k to msg,
      syscall_send-stores k i pid to tag at size bytes call
          ∙ store_message-slot k i to tag m bytes mb room
          ∙ deliver-asleep k to msg awake,
      ap Process.messages here ∙ w.0,
      subst IsMailbox (sym here) w.1,
    )

-- If the mailbox of the destination is full, a valid call to send fails with ENOMEM and changes
-- nothing.
pub syscall_send-full :
    (k : Kernel) (i : ℕ) (pid : ℤ) (to tag at size m : ℕ) (bytes : List ℕ)
    → IsSend k i pid to at size bytes
    → (k.processes to).mailbox ≡ some m
    → (k.processes to).mailbox_alloc ≤ (k.processes to).mailbox_size
    → syscall_send k pid tag at size ≡ done (error enomem, k)
syscall_send-full k i pid to tag at size m bytes call mb full =
    syscall_send-stores k i pid to tag at size bytes call
    ∙ store_message-full k i to tag m bytes mb full
