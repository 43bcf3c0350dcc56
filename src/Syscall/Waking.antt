-- ===== src/Syscall/Waking.antt =====
-- What becomes of a process that waits for a message when it is sent one.
use adelaideos.Common.{
  ℕ, subst, sym, length, ◌<◌, ◌-◌, take, update, if◌then◌else◌, Run, ◌>>=◌, ◌≡◌, refl, ap, ◌∙◌, inl,
  inr, Bool-cases, Bool, true, false, some, List, [], ◌∷◌, ◌++◌, eq→==, update_self, ℤ, done, arith,
}
use adelaideos.Kernel.{Message, Process, ProcessList, Kernel, set_process}
use adelaideos.ProcessList.{list_add, list_remove}
use adelaideos.Process.{resume_process, set_ready, add_ready, remove_suspended}
use adelaideos.Process.Lists.{IsScheduled, resume_process-IsScheduled}
use adelaideos.Process.Frame.{set_process-IsScheduled}
use adelaideos.Pipe.{Ret, value}
use adelaideos.Syscall.{slot_data, deliver, syscall_send}
use adelaideos.Syscall.Mailbox.{
  IsMailbox, IsSend, message_from, with_message, one_longer, stored, with_message_lem,
  store_message-slot, syscall_send-stores,
}

-- Both tables have the same mailbox for a process.
abbrev SameMailbox : (ℕ → Process) → (ℕ → Process) → ℕ → Type 0
SameMailbox t u y = ((u y).messages ≡ (t y).messages) × ((u y).mailbox_size ≡ (t y).mailbox_size)

list_add-SameMailbox :
    (t : ℕ → Process) (ll : ProcessList) (obj y : ℕ) → SameMailbox t (list_add t ll obj).table y
unfolding list_add
list_add-SameMailbox t ll obj y = (ground arith, ground arith)

list_remove-SameMailbox :
    (t : ℕ → Process) (ll : ProcessList) (obj y : ℕ) → SameMailbox t (list_remove t ll obj).table y
unfolding list_remove
list_remove-SameMailbox t ll obj y = (ground arith, ground arith)

set_ready-SameMailbox :
    (k : Kernel) (i y : ℕ) (b : Bool) → SameMailbox k.processes (set_ready k i b).processes y
set_ready-SameMailbox k i y b = (ground arith, ground arith)

resume_process-SameMailbox :
    (k k' : Kernel) (i y : ℕ)
    → resume_process k i ≡ done k'
    → SameMailbox k.processes k'.processes y
unfolding resume_process
resume_process-SameMailbox k k' i y e =
    let k1 = set_ready k i true in
    let r = list_remove k1.processes k1.suspended i in
    let a = list_add-SameMailbox r.table k1.ready i y in
    let b = list_remove-SameMailbox k1.processes k1.suspended i y in
    let c = set_ready-SameMailbox k i y true in
    elim (Bool-cases (k.processes i).exists) [
      | inl x ↦ elim (Bool-cases (k.processes i).ready) [
        | inl z ↦ absurd (cc (rw (x, z) at e))
        | inr z ↦
            let k2 = add_ready (remove_suspended k1 i) i in
            let ends : resume_process k i ≡ done k2 = rw (x, z) refl in
            let same : k' ≡ k2 = cc (ends, e) in rw same (a.0 ∙ b.0 ∙ c.0, a.1 ∙ b.1 ∙ c.1)
      ]
      | inr x ↦ absurd (cc (rw x at e))
    ]

stored-IsScheduled :
    (k : Kernel) (to : ℕ) (msg : Message) (rs ss : List ℕ)
    → IsScheduled k rs ss
    → IsScheduled (stored k to msg) rs ss
stored-IsScheduled k to msg rs ss h =
    let k1 = set_process k to (one_longer (k.processes to)) in
    set_process-IsScheduled k1 to (with_message (k.processes to) msg) rs ss
      (rw (eq→== to to refl) (refl, refl, refl, refl))
      (set_process-IsScheduled k to (one_longer (k.processes to)) rs ss (refl, refl, refl, refl) h)

-- A process with the message in its last slot.
abbrev added : Process → Message → Process
added p msg = record p {
  messages = take (p.mailbox_size - 1) p.messages ++ msg ∷ [];
  slots = update p.slots (p.mailbox_size - 1) (slot_data msg.bytes (p.slots (p.mailbox_size - 1)));
}

abbrev not_waiting : Kernel → ℕ → Kernel
not_waiting k to = set_process k to (record (k.processes to) { receive_blocked = false })

-- What `deliver` does for a receiver, once the message is in the slot.
abbrev wake_receiver : Kernel → ℕ → Run (Ret × Kernel)
wake_receiver k to = do
  k ←
      if (k.processes to).receive_blocked
      then (do k ← resume_process k to; done (not_waiting k to))
      else done k
  done (value 0, k)

wake_receiver-waiting :
    (k k' : Kernel) (to : ℕ)
    → (k.processes to).receive_blocked ≡ true
    → resume_process k to ≡ done k'
    → wake_receiver k to ≡ done (value 0, not_waiting k' to)
wake_receiver-waiting k k' to waits e = rw (waits, e) refl

deliver-waiting :
    (k k' : Kernel) (to : ℕ) (msg : Message)
    → (k.processes to).receive_blocked ≡ true
    → resume_process (stored k to msg) to ≡ done k'
    → deliver (set_process k to (one_longer (k.processes to))) to msg
      ≡ done (value 0, not_waiting k' to)
deliver-waiting k k' to msg waits e =
    let k1 = set_process k to (one_longer (k.processes to)) in
    let there : k1.processes to ≡ one_longer (k.processes to) =
      update_self k.processes to (one_longer (k.processes to)) in
    let here : (stored k to msg).processes to ≡ with_message (k.processes to) msg =
      update_self k1.processes to (with_message (k.processes to) msg) in
    ap (λ p. wake_receiver (set_process k1 to (added p msg)) to) there
    ∙ wake_receiver-waiting (stored k to msg) k' to (ap Process.receive_blocked here ∙ waits) e

-- A valid call that sends to a suspended process that waits for a message and has room in its mailbox,
-- where the lists are well formed, succeeds: the message, with the pid of the sender, is behind those
-- that are there, and the process moves to the head of the ready list and does not wait for one any more.
pub syscall_send-wakes :
    (k : Kernel) (i : ℕ) (pid : ℤ) (to tag at size m : ℕ) (bytes rs xs ys : List ℕ)
    → IsSend k i pid to at size bytes
    → IsMailbox (k.processes to)
    → (k.processes to).mailbox ≡ some m
    → (k.processes to).mailbox_size < (k.processes to).mailbox_alloc
    → (k.processes to).receive_blocked ≡ true
    → IsScheduled k rs (xs ++ to ∷ ys)
    → (k' : Kernel) × (syscall_send k pid tag at size ≡ done (value 0, k'))
      × ((k'.processes to).messages ≡ (k.processes to).messages ++ message_from k i tag bytes ∷ [])
      × IsMailbox (k'.processes to)
      × ((k'.processes to).receive_blocked ≡ false)
      × IsScheduled k' (to ∷ rs) (xs ++ ys)
syscall_send-wakes k i pid to tag at size m bytes rs xs ys call box mb room waits h =
    let msg = message_from k i tag bytes in
    let k1 = set_process k to (one_longer (k.processes to)) in
    let k2 = stored k to msg in
    let (k3, e, sched) =
      resume_process-IsScheduled k2 rs xs ys to
        (stored-IsScheduled k to msg rs (xs ++ to ∷ ys) h) in
    let w : Process = record (k3.processes to) { receive_blocked = false } in
    let here : (not_waiting k3 to).processes to ≡ w = update_self k3.processes to w in
    let there : k2.processes to ≡ with_message (k.processes to) msg =
      update_self k1.processes to (with_message (k.processes to) msg) in
    let kept = resume_process-SameMailbox k2 k3 to to e in
    let full = with_message_lem (k.processes to) msg box in
    (
      not_waiting k3 to,
      syscall_send-stores k i pid to tag at size bytes call
          ∙ store_message-slot k i to tag m bytes mb room
          ∙ deliver-waiting k k3 to msg waits e,
      ap Process.messages here ∙ kept.0 ∙ ap Process.messages there ∙ full.0,
      subst IsMailbox (sym here)
          (ap length kept.0 ∙ subst IsMailbox (sym there) full.1 ∙ sym kept.1),
      ap Process.receive_blocked here,
      set_process-IsScheduled k3 to w (to ∷ rs) (xs ++ ys) (refl, refl, refl, refl) sched,
    )
