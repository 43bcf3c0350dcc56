-- ===== src/Process/Lists.antt =====
-- The ready list and the suspended list hold each process once, with the flag that belongs to it.
use adelaideos.Common.{
  ℕ, ◌≡◌, ◌≢◌, refl, sym, List, [], ◌∷◌, ◌++◌, Bool, true, false, Option, none, some, All, arith,
  All-map, All-map₂, All-All, All-swap, All-drop, Distinct, Distinct-swap, ◌∙◌, done,
}
use adelaideos.Kernel.{Process, ProcessList, Kernel}
use adelaideos.ProcessList.{list_add, list_remove}
use adelaideos.ProcessList.Linked.{
  Linked, IsList, SameLinks, Linked-frame, list_add-IsList, list_add-SameLinks,
}
use adelaideos.ProcessList.Removal.{list_remove-IsList, list_remove-SameLinks}
use adelaideos.Process.{
  suspend_process, resume_process, set_ready, add_ready, add_suspended, remove_ready,
  remove_suspended,
}

-- A process with the flag `b` for `ready`.
abbrev pub Marked : Bool → (ℕ → Process) → ℕ → Type 0
Marked b t x = ((t x).exists ≡ true) × ((t x).ready ≡ b)

pub record IsScheduled (k : Kernel) (rs ss : List ℕ) : Type 0 where
  pub ready_list : IsList k.processes k.ready rs
  pub suspended_list : IsList k.processes k.suspended ss
  pub apart : Distinct rs ss
  pub runnable : All (Marked true k.processes) rs
  pub waiting : All (Marked false k.processes) ss

abbrev SameFlags : (ℕ → Process) → (ℕ → Process) → ℕ → Type 0
SameFlags t u y = ((u y).exists ≡ (t y).exists) × ((u y).ready ≡ (t y).ready)

list_add-SameFlags :
    (t : ℕ → Process) (ll : ProcessList) (obj y : ℕ) → SameFlags t (list_add t ll obj).table y
unfolding list_add
list_add-SameFlags t ll obj y = ground arith

list_remove-SameFlags :
    (t : ℕ → Process) (ll : ProcessList) (obj y : ℕ) → SameFlags t (list_remove t ll obj).table y
unfolding list_remove
list_remove-SameFlags t ll obj y = ground arith

-- A process moves from the list `a` to the head of the list `b`.
pub record Moved (t : ℕ → Process) (a b : ProcessList) (i : ℕ) (rest ss : List ℕ) : Type 0 where
  from_list : IsList (list_add (list_remove t a i).table b i).table (list_remove t a i).head rest
  to_list :
      IsList
        (list_add (list_remove t a i).table b i).table
        (list_add (list_remove t a i).table b i).head
        (i ∷ ss)
  flags : (y : ℕ) → SameFlags t (list_add (list_remove t a i).table b i).table y

Linked-apart :
    (t : ℕ → Process) (p f l : Option ℕ) (xs ys : List ℕ) (x : ℕ)
    → Linked t p f l (xs ++ x ∷ ys)
    → All (λ y. x ≢ y) (xs ++ ys)
Linked-apart t p f l [] ys x h = h.2
Linked-apart t p f l (w ∷ ws) ys x h = (
  λ e. (All-drop (λ y. w ≢ y) ws ys x h.2).0 (sym e),
  Linked-apart t (some w) (t w).next l ws ys x h.3,
)

move_lem :
    (t : ℕ → Process) (a b : ProcessList) (xs ys ss : List ℕ) (i : ℕ)
    → IsList t a (xs ++ i ∷ ys)
    → IsList t b ss
    → Distinct (xs ++ i ∷ ys) ss
    → Moved t a b i (xs ++ ys) ss
move_lem t a b xs ys ss i h g d =
    let t1 = (list_remove t a i).table in
    let t2 = (list_add t1 b i).table in
    let out = All-drop (λ x. All (λ y. x ≢ y) ss) xs ys i d in
    let r = list_remove-IsList t a xs ys i h in
    let spared : All (SameLinks t t1) ss =
      All-map (λ y. All (λ x. x ≢ y) (xs ++ i ∷ ys)) (SameLinks t t1) ss
        (λ y f.
          list_remove-SameLinks t a xs ys i y h
            (All-map (λ x. x ≢ y) (λ x. y ≢ x) (xs ++ i ∷ ys) (λ x n e. n (sym e)) f))
        (All-swap (λ x y. x ≢ y) (xs ++ i ∷ ys) ss d) in
    let g1 = Linked-frame t t1 none b.first b.last ss g spared in
    let kept : All (SameLinks t1 t2) (xs ++ ys) =
      All-map₂ (λ y. i ≢ y) (λ x. All (λ y. x ≢ y) ss) (SameLinks t1 t2) (xs ++ ys)
        (λ y n f.
          list_add-SameLinks t1 b ss i y g1 r.1 out.0 n
            (All-map (λ z. y ≢ z) (λ z. z ≢ y) ss (λ z m e. m (sym e)) f))
        (Linked-apart t none a.first a.last xs ys i h) out.1 in
    let a' = (list_remove t a i).head in
    record {
      from_list = Linked-frame t1 t2 none a'.first a'.last (xs ++ ys) r.0 kept;
      to_list = list_add-IsList t1 b ss i g1 r.1 out.0;
      flags = λ y.
          let f = list_remove-SameFlags t a i y in
          let e = list_add-SameFlags t1 b i y in (e.0 ∙ f.0, e.1 ∙ f.1);
    }

marked_lem :
    (t u : ℕ → Process) (b : Bool) (xs : List ℕ)
    → All (Marked b t) xs
    → All (SameFlags t u) xs
    → All (Marked b u) xs
marked_lem t u b xs h same =
    All-map₂ (Marked b t) (SameFlags t u) (Marked b u) xs (λ y m e. (e.0 ∙ m.0, e.1 ∙ m.1)) h same

-- Setting the flag of `i` changes no link, and no flag of the others.
set_ready-SameLinks :
    (k : Kernel) (i : ℕ) (b : Bool) (y : ℕ) → SameLinks k.processes (set_ready k i b).processes y
set_ready-SameLinks k i b y = ground arith

set_ready-SameFlags :
    (k : Kernel) (i : ℕ) (b : Bool) (y : ℕ)
    → i ≢ y
    → SameFlags k.processes (set_ready k i b).processes y
set_ready-SameFlags k i b y ne = ground arith

-- The table `t` with the flag of `i` set to `b`, and the lists after the move.
set_ready-Moved :
    (k : Kernel) (b : Bool) (from to : ProcessList) (xs ys ss : List ℕ) (i : ℕ)
    → IsList k.processes from (xs ++ i ∷ ys)
    → IsList k.processes to ss
    → Distinct (xs ++ i ∷ ys) ss
    → Moved (set_ready k i b).processes from to i (xs ++ ys) ss
set_ready-Moved k b from to xs ys ss i h g d =
    let t = (set_ready k i b).processes in
    let same = set_ready-SameLinks k i b in
    move_lem t from to xs ys ss i
      (Linked-frame k.processes t none from.first from.last (xs ++ i ∷ ys) h
        (All-All (SameLinks k.processes t) (xs ++ i ∷ ys) same))
      (Linked-frame k.processes t none to.first to.last ss g
        (All-All (SameLinks k.processes t) ss same))
      d

-- The flags of the processes that do not move, and of the one that does.
flags_lem :
    (k : Kernel) (b c : Bool) (i : ℕ) (xs : List ℕ) (u : ℕ → Process)
    → ((y : ℕ) → SameFlags (set_ready k i b).processes u y)
    → All (λ y. i ≢ y) xs
    → All (Marked c k.processes) xs
    → All (Marked c u) xs
flags_lem k b c i xs u same ne h =
    marked_lem (set_ready k i b).processes u c xs
      (All-map₂ (λ y. i ≢ y) (Marked c k.processes) (Marked c (set_ready k i b).processes) xs
        (λ y n m. let f = set_ready-SameFlags k i b y n in (f.0 ∙ m.0, f.1 ∙ m.1)) ne h)
      (All-All (SameFlags (set_ready k i b).processes u) xs same)

flag_lem :
    (k : Kernel) (b : Bool) (i : ℕ) (u : ℕ → Process)
    → ((y : ℕ) → SameFlags (set_ready k i b).processes u y)
    → (k.processes i).exists ≡ true
    → Marked b u i
flag_lem k b i u same e = ground (arith, same i)

-- Suspending a runnable process moves it from its place in the ready list to the head of the
-- suspended list; no assertion fails, and the lists stay well formed.
pub suspend_process-IsScheduled :
    (k : Kernel) (xs ys ss : List ℕ) (i : ℕ)
    → IsScheduled k (xs ++ i ∷ ys) ss
    → (k' : Kernel) × (suspend_process k i ≡ done k') × IsScheduled k' (xs ++ ys) (i ∷ ss)
unfolding suspend_process
suspend_process-IsScheduled k xs ys ss i h =
    let m =
      set_ready-Moved k false k.ready k.suspended xs ys ss i h.ready_list h.suspended_list
        h.apart in
    let own = All-drop (Marked true k.processes) xs ys i h.runnable in
    let out = All-drop (λ x. All (λ y. x ≢ y) ss) xs ys i h.apart in
    let ne = Linked-apart k.processes none k.ready.first k.ready.last xs ys i h.ready_list in
    let k' = add_suspended (remove_ready (set_ready k i false) i) i in
    (
      k',
      rw (own.0.0, own.0.1) refl,
      record {
        ready_list = m.from_list;
        suspended_list = m.to_list;
        apart =
            All-map₂ (λ y. i ≢ y) (λ x. All (λ y. x ≢ y) ss) (λ x. All (λ y. x ≢ y) (i ∷ ss))
              (xs ++ ys) (λ y n f. (λ e. n (sym e), f)) ne out.1;
        runnable = flags_lem k false true i (xs ++ ys) k'.processes m.flags ne own.1;
        waiting = (
          flag_lem k false i k'.processes m.flags own.0.0,
          flags_lem k false false i ss k'.processes m.flags out.0 h.waiting,
        );
      },
    )

-- Resuming a suspended process moves it from its place in the suspended list to the head of the ready
-- list; no assertion fails, and the lists stay well formed.
pub resume_process-IsScheduled :
    (k : Kernel) (rs xs ys : List ℕ) (i : ℕ)
    → IsScheduled k rs (xs ++ i ∷ ys)
    → (k' : Kernel) × (resume_process k i ≡ done k') × IsScheduled k' (i ∷ rs) (xs ++ ys)
unfolding resume_process
resume_process-IsScheduled k rs xs ys i h =
    let d = Distinct-swap rs (xs ++ i ∷ ys) h.apart in
    let m = set_ready-Moved k true k.suspended k.ready xs ys rs i h.suspended_list h.ready_list d in
    let own = All-drop (Marked false k.processes) xs ys i h.waiting in
    let out = All-drop (λ x. All (λ y. x ≢ y) rs) xs ys i d in
    let ne =
      Linked-apart k.processes none k.suspended.first k.suspended.last xs ys i h.suspended_list in
    let k' = add_ready (remove_suspended (set_ready k i true) i) i in
    (
      k',
      rw (own.0.0, own.0.1) refl,
      record {
        ready_list = m.to_list;
        suspended_list = m.from_list;
        apart = (ne, Distinct-swap (xs ++ ys) rs out.1);
        runnable = (
          flag_lem k true i k'.processes m.flags own.0.0,
          flags_lem k true true i rs k'.processes m.flags out.0 h.runnable,
        );
        waiting = flags_lem k true false i (xs ++ ys) k'.processes m.flags ne own.1;
      },
    )
