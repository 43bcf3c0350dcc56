-- ===== src/Process/Frame.antt =====
-- Changes of a process that do not touch the lists or the flags.
use adelaideos.Common.{
  ℕ, ◌≡◌, inl, inr, eq_or_ne, eq→==, ne→==, refl, List, Bool, true, false, none, All, All-All,
  All-map,
}
use adelaideos.Kernel.{Process, Kernel, set_process}
use adelaideos.ProcessList.Linked.{SameLinks, Linked-frame}
use adelaideos.Process.Lists.{Marked, IsScheduled}

-- The links and the flags of a process are the same in both tables.
abbrev pub SameState : Process → Process → Type 0
SameState p q = (q.prev ≡ p.prev) × (q.next ≡ p.next) × (q.exists ≡ p.exists) × (q.ready ≡ p.ready)

Marked-frame :
    (t u : ℕ → Process) (b : Bool) (xs : List ℕ)
    → ((y : ℕ) → SameState (t y) (u y))
    → All (Marked b t) xs
    → All (Marked b u) xs
Marked-frame t u b xs same h =
    All-map (Marked b t) (Marked b u) xs (λ y m. (rw (same y).2 m.0, rw (same y).3 m.1)) h

-- The lists of a kernel are the lists of another that has the same heads, links and flags.
pub IsScheduled-frame :
    (k k' : Kernel) (rs ss : List ℕ)
    → k'.ready ≡ k.ready
    → k'.suspended ≡ k.suspended
    → ((y : ℕ) → SameState (k.processes y) (k'.processes y))
    → IsScheduled k rs ss
    → IsScheduled k' rs ss
IsScheduled-frame k k' rs ss er es same h =
    let links : (xs : List ℕ) → All (SameLinks k.processes k'.processes) xs =
      λ xs. All-All (SameLinks k.processes k'.processes) xs (λ y. ((same y).0, (same y).1)) in
    record {
      ready_list = rw er (
          Linked-frame k.processes k'.processes none k.ready.first k.ready.last rs h.ready_list
            (links rs));
      suspended_list = rw es (
          Linked-frame k.processes k'.processes none k.suspended.first k.suspended.last ss
            h.suspended_list (links ss));
      apart = h.apart;
      runnable = Marked-frame k.processes k'.processes true rs same h.runnable;
      waiting = Marked-frame k.processes k'.processes false ss same h.waiting;
    }

-- Exchanging a process for one with the same links and flags.
pub set_process-IsScheduled :
    (k : Kernel) (i : ℕ) (p : Process) (rs ss : List ℕ)
    → SameState (k.processes i) p
    → IsScheduled k rs ss
    → IsScheduled (set_process k i p) rs ss
set_process-IsScheduled k i p rs ss same h =
    IsScheduled-frame k (set_process k i p) rs ss refl refl
      (λ y. elim (eq_or_ne i y) [
        | inl e ↦ rw (eq→== i y e, ← e) same
        | inr n ↦ rw (ne→== i y n) (refl, refl, refl, refl)
      ])
      h
