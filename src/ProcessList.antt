-- ===== src/ProcessList.antt =====
-- The macros list_add and list_remove of source/kernel.h: doubly linked lists threaded through the
-- `prev` and `next` fields of the process table.
pub mod Linked
pub mod Removal
use adelaideos.Common.{ℕ, Option, none, some, ◌==◌, if◌then◌else◌, update}
use adelaideos.Kernel.{Process, ProcessList}

-- `(_obj)->prev = v`, `(_obj)->next = v`
abbrev pub set_prev : (ℕ → Process) → ℕ → Option ℕ → ℕ → Process
set_prev t i v = update t i (record (t i) { prev = v })

abbrev pub set_next : (ℕ → Process) → ℕ → Option ℕ → ℕ → Process
set_next t i v = update t i (record (t i) { next = v })

-- The table and the list head after a macro.
abbrev pub Linking : Type 0
Linking = record { table : ℕ → Process; head : ProcessList }

unfoldable pub list_add : (ℕ → Process) → ProcessList → ℕ → Linking
list_add t ll obj = elim ll.first [
  | some f ↦ record {
    table = set_prev (set_next t obj (some f)) f (some obj);
    head = record ll { first = some obj };
  }
  | none ↦ record { table = t; head = record { first = some obj; last = some obj } }
]

abbrev pub points_to : Option ℕ → ℕ → Option ℕ → Option ℕ
points_to none obj v = none
points_to (some p) obj v = if p == obj then v else some p

unfoldable link_prev : (ℕ → Process) → Option ℕ → Option ℕ → ℕ → Process
link_prev t none v = t
link_prev t (some n) v = set_prev t n v

unfoldable link_next : (ℕ → Process) → Option ℕ → Option ℕ → ℕ → Process
link_next t none v = t
link_next t (some p) v = set_next t p v

-- `points_to` is the test and the assignment on `first` and on `last`.
unfoldable pub list_remove : (ℕ → Process) → ProcessList → ℕ → Linking
unfolding link_prev link_next
list_remove t ll obj =
    let head : ProcessList = record {
      first = points_to ll.first obj (t obj).next;
      last = points_to ll.last obj (t obj).prev;
    } in
    let t1 = link_prev t (t obj).next (t obj).prev in
    let t2 = link_next t1 (t1 obj).prev (t1 obj).next in
    record { table = set_prev (set_next t2 obj none) obj none; head = head }
