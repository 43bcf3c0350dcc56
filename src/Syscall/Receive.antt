-- ===== src/Syscall/Receive.antt =====
-- What a process receives from its mailbox, and how it waits for a message.
use adelaideos.Common.{
  ℕ, suc, get_or, ◌-◌, ◌≡◌, refl, sym, ap, ◌∙◌, subst, inl, inr, Bool, true, false, none, some,
  List, ◌∷◌, ◌++◌, length, drop, lt→ltb, le→ltb, Bool-cases, update_self, done, stop, null_access,
  >>=-done, arith,
}
use adelaideos.Kernel.{Message, Process, ProcessList, Kernel, set_process}
use adelaideos.ProcessList.{list_add, list_remove}
use adelaideos.Page.{Pages}
use adelaideos.Process.{current_pid, add_suspended, set_ready, remove_ready, suspend_process}
use adelaideos.Process.Lists.{IsScheduled, suspend_process-IsScheduled}
use adelaideos.Process.Frame.{set_process-IsScheduled}
use adelaideos.UserMemory.{store_bytes, copy_out}
use adelaideos.Pipe.{value, suspended}
use adelaideos.Pointers.{valid_pointer}
use adelaideos.Syscall.{
  message_bytes, no_contents, moved_up, no_message, syscall_receive, sizeof_message,
}
use adelaideos.Syscall.Mailbox.{IsMailbox}

current_lem : (k : Kernel) (i : ℕ) → k.current ≡ some i → current_pid k ≡ done i
current_lem k i now = ap (λ c. elim c [ none ↦ stop null_access | some j ↦ done j ]) now

no_message-waits :
    (k k' : Kernel) (i : ℕ)
    → suspend_process (set_process k i (record (k.processes i) { receive_blocked = true })) i
      ≡ done k'
    → no_message k i true ≡ done (suspended, k')
no_message-waits k k' i e = >>=-done _ (λ q. done (suspended, q)) k' e

list_add-blocked :
    (t : ℕ → Process) (ll : ProcessList) (obj y : ℕ)
    → ((list_add t ll obj).table y).receive_blocked ≡ (t y).receive_blocked
unfolding list_add
list_add-blocked t ll obj y = ground arith

list_remove-blocked :
    (t : ℕ → Process) (ll : ProcessList) (obj y : ℕ)
    → ((list_remove t ll obj).table y).receive_blocked ≡ (t y).receive_blocked
unfolding list_remove
list_remove-blocked t ll obj y = ground arith

set_ready-blocked :
    (k : Kernel) (i y : ℕ) (b : Bool)
    → ((set_ready k i b).processes y).receive_blocked ≡ (k.processes y).receive_blocked
set_ready-blocked k i y b = ground arith

suspend_process-blocked :
    (k k' : Kernel) (i y : ℕ)
    → suspend_process k i ≡ done k'
    → (k'.processes y).receive_blocked ≡ (k.processes y).receive_blocked
unfolding suspend_process
suspend_process-blocked k k' i y e =
    let k1 = set_ready k i false in
    let r = list_remove k1.processes k1.ready i in
    let kept =
      list_add-blocked r.table k1.suspended i y
      ∙ list_remove-blocked k1.processes k1.ready i y
      ∙ set_ready-blocked k i y false in
    elim (Bool-cases (k.processes i).exists) [
      | inl x ↦ elim (Bool-cases (k.processes i).ready) [
        | inl z ↦
            let k2 = add_suspended (remove_ready k1 i) i in
            let ends : suspend_process k i ≡ done k2 = rw (x, z) refl in
            let same : k' ≡ k2 = cc (ends, e) in
            ap (λ q. (Kernel.processes q y).receive_blocked) same ∙ kept
        | inr z ↦ absurd (cc (rw (x, z) at e))
      ]
      | inr x ↦ absurd (cc (rw x at e))
    ]

copy_out-done :
    (k : Kernel) (i a : ℕ) (bytes : List ℕ) (p : Pages)
    → k.current ≡ some i
    → store_bytes bytes k.pages (k.processes i).pdir a ≡ done p
    → copy_out k a bytes ≡ done (record k { pages = p })
unfolding copy_out
copy_out-done k i a bytes p now e =
    >>=-done (current_pid k) _ i (current_lem k i now)
    ∙ >>=-done (store_bytes bytes k.pages (k.processes i).pdir a) _ p e

abbrev without_first : Process → Process
without_first p = record p {
  messages = drop 1 p.messages;
  mailbox_size = p.mailbox_size - 1;
  slots = moved_up p.mailbox_size p.slots;
}

-- A receive by the current process, which has messages, succeeds where the processor can store the
-- slot of the first at the valid address that the call names: its pid, tag, size and bytes are
-- stored, with what the slot holds behind them, and the other messages stay in their order.
pub syscall_receive-queue :
    (k : Kernel) (i at : ℕ) (block : Bool) (m : Message) (ms : List Message) (p : Pages)
    → k.current ≡ some i
    → valid_pointer (k.processes i) at sizeof_message ≡ true
    → (k.processes i).messages ≡ m ∷ ms
    → IsMailbox (k.processes i)
    → store_bytes (message_bytes m ((k.processes i).slots 0)) k.pages (k.processes i).pdir at
      ≡ done p
    → (k' : Kernel) × (syscall_receive k at block ≡ done (value 0, k'))
      × (k'.pages ≡ p)
      × ((k'.processes i).messages ≡ ms)
      × IsMailbox (k'.processes i)
unfolding syscall_receive
syscall_receive-queue k i at block m ms p now valid have box fits =
    let k1 : Kernel = record k { pages = p } in
    let first : get_or (k.processes i).messages 0 no_contents ≡ m =
      ap (λ l. get_or l 0 no_contents) have in
    let held = (k.processes i).slots 0 in
    let copied : copy_out k at (message_bytes (get_or (k.processes i).messages 0 no_contents) held)
        ≡ done k1 =
      ap (λ c. copy_out k at (message_bytes c held)) first
      ∙ copy_out-done k i at (message_bytes m held) p now fits in
    let w = without_first (k.processes i) in
    let here : (set_process k1 i w).processes i ≡ w = update_self k.processes i w in
    let rest : drop 1 (k.processes i).messages ≡ ms = ap (λ l. drop 1 l) have in
    let count : suc (length ms) ≡ (k.processes i).mailbox_size = sym (ap length have) ∙ box in
    (
      set_process k1 i w,
      >>=-done (current_pid k) _ i (current_lem k i now)
          ∙ rw (valid, lt→ltb 0 (k.processes i).mailbox_size (omega (arith, count)))
              (>>=-done _ _ k1 copied),
      refl,
      ap Process.messages here ∙ rest,
      subst IsMailbox (sym here) (ap length rest ∙ omega (arith, count)),
    )

-- If the current process asks to wait for a message at a valid address, and has none, it is
-- suspended, where it is runnable and the lists are well formed: it moves to the head of the
-- suspended list, and is marked as waiting for a message.
pub syscall_receive-waits :
    (k : Kernel) (i at : ℕ) (xs ys ss : List ℕ)
    → k.current ≡ some i
    → valid_pointer (k.processes i) at sizeof_message ≡ true
    → (k.processes i).mailbox_size ≡ 0
    → IsScheduled k (xs ++ i ∷ ys) ss
    → (k' : Kernel) × (syscall_receive k at true ≡ done (suspended, k'))
      × ((k'.processes i).receive_blocked ≡ true)
      × IsScheduled k' (xs ++ ys) (i ∷ ss)
unfolding syscall_receive
syscall_receive-waits k i at xs ys ss now valid none_there sched =
    let w : Process = record (k.processes i) { receive_blocked = true } in
    let k1 = set_process k i w in
    let sched1 = set_process-IsScheduled k i w (xs ++ i ∷ ys) ss (refl, refl, refl, refl) sched in
    let (k2, e, sched2) = suspend_process-IsScheduled k1 xs ys ss i sched1 in
    (
      k2,
      >>=-done (current_pid k) _ i (current_lem k i now)
          ∙ rw (valid, le→ltb 0 (k.processes i).mailbox_size (omega arith))
              (no_message-waits k k2 i e),
      suspend_process-blocked k1 k2 i i e
          ∙ ap Process.receive_blocked (update_self k.processes i w),
      sched2,
    )
