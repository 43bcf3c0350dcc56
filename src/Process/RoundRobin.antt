-- ===== src/Process/RoundRobin.antt =====
-- The scheduler takes the ready processes in turn, and a process finds its registers again.
use adelaideos.Common.{
  ℕ, ◌≡◌, ◌≢◌, refl, ◌∙◌, List, [], ◌∷◌, ◌++◌, true, false, Option, none, some, arith, All,
  All-drop, Option-cases, inl, inr, Run, done,
}
use adelaideos.Kernel.{Regs, Process, Kernel}
use adelaideos.ProcessList.Linked.{Linked}
use adelaideos.Process.Lists.{Marked, IsScheduled}
use adelaideos.Process.Switch.{Idle, next_process, save_regs, context_switch}

abbrev pub head : List ℕ → Option ℕ
head [] = none
head (x ∷ xs) = some x

first-head : (t : ℕ → Process) (p f l : Option ℕ) (xs : List ℕ) → Linked t p f l xs → f ≡ head xs
first-head t p f l [] h = h.0
first-head t p f l (x ∷ xs) h = h.0

next-head :
    (t : ℕ → Process) (p f l : Option ℕ) (xs ys : List ℕ) (i : ℕ)
    → Linked t p f l (xs ++ i ∷ ys)
    → (t i).next ≡ head ys
next-head t p f l [] ys i h = first-head t (some i) (t i).next l ys h.3
next-head t p f l (w ∷ ws) ys i h = next-head t (some w) (t w).next l ws ys i h.3

head-append_cons : (xs ys : List ℕ) (i : ℕ) → head (xs ++ i ∷ ys) ≡ head (xs ++ i ∷ [])
head-append_cons [] ys i = refl
head-append_cons (x ∷ xs) ys i = refl

Linked-tail :
    (t : ℕ → Process) (p f l : Option ℕ) (xs ys : List ℕ) (i : ℕ)
    → Linked t p f l (xs ++ i ∷ ys)
    → All (λ y. i ≢ y) ys
Linked-tail t p f l [] ys i h = h.2
Linked-tail t p f l (w ∷ ws) ys i h = Linked-tail t (some w) (t w).next l ws ys i h.3

-- Where the lists are well formed and the current process is in the ready list, the next is the one
-- behind it, and behind the last the first: the head of the list turned so that the current process
-- stands at its end.
pub next_process-turn :
    (k : Kernel) (xs ys ss : List ℕ) (i : ℕ)
    → IsScheduled k (xs ++ i ∷ ys) ss
    → k.current ≡ some i
    → next_process k ≡ head (ys ++ xs ++ i ∷ [])
unfolding next_process
next_process-turn k xs [] ss i h e =
    let m = (All-drop (Marked true k.processes) xs [] i h.runnable).0 in
    let n = next-head k.processes none k.ready.first k.ready.last xs [] i h.ready_list in
    let f = first-head k.processes none k.ready.first k.ready.last (xs ++ i ∷ []) h.ready_list in
    rw (e, next_process) (rw (m.1, n) f)
next_process-turn k xs (y ∷ ys) ss i h e =
    let m = (All-drop (Marked true k.processes) xs (y ∷ ys) i h.runnable).0 in
    let n = next-head k.processes none k.ready.first k.ready.last xs (y ∷ ys) i h.ready_list in
    rw (e, next_process) (rw (m.1, n) refl)

-- Where the lists are well formed, a kernel without a current process, or whose current process has
-- been suspended, goes to the head of the ready list, and idles if that is empty.
next_process-first :
    (k : Kernel) (rs ss : List ℕ)
    → IsScheduled k rs ss
    → ((i : ℕ) → k.current ≡ some i → (k.processes i).ready ≡ false)
    → next_process k ≡ head rs
unfolding next_process
next_process-first k rs ss h off =
    let f = first-head k.processes none k.ready.first k.ready.last rs h.ready_list in
    elim (Option-cases k.current) [
      | inl e ↦ rw (e, next_process) f
      | inr (i, e) ↦ rw (e, next_process) (rw (off i e) f)
    ]

pub next-save :
    (k : Kernel) (r : Regs) (i : ℕ)
    → k.current ≡ some i
    → next_process (save_regs k r) ≡ next_process k
unfolding save_regs next_process
next-save k r i e = ground arith

saved_lem :
    (k : Kernel) (r : Regs) (i : ℕ)
    → k.current ≡ some i
    → (((save_regs k r).processes i).saved_regs ≡ r)
      × ((j : ℕ) → i ≢ j → (save_regs k r).processes j ≡ k.processes j)
      × ((save_regs k r).ready ≡ k.ready)
      × ((save_regs k r).suspended ≡ k.suspended)
unfolding save_regs
saved_lem k r i e = rw (e, save_regs) (ground arith, λ j ne. ground arith, refl, refl)

-- Where the lists are well formed, a switch from the current process `i` to the process `j` behind
-- it, which was not suspended in a system call, gives the frame the registers that `j` was left
-- with and keeps those of `i`; `j` is current, its page directory is in force, and the heads of the
-- lists are as they were.
pub context_switch-saves :
    (resume : Regs → Kernel → Run (Regs × Kernel)) (idle : Idle) (r : Regs) (k : Kernel)
    (xs ys ss : List ℕ) (i j : ℕ)
    → IsScheduled k (xs ++ i ∷ j ∷ ys) ss
    → k.current ≡ some i
    → (k.processes j).in_syscall ≡ 0
    → (k' : Kernel) × (context_switch resume idle r k ≡ done ((k.processes j).saved_regs, k'))
      × ((k'.processes i).saved_regs ≡ r)
      × (k'.current ≡ some j)
      × (k'.paging ≡ some (k.processes j).pdir)
      × (k'.ready ≡ k.ready)
      × (k'.suspended ≡ k.suspended)
unfolding context_switch
context_switch-saves resume idle r k xs ys ss i j h e user =
    let n : next_process (save_regs k r) ≡ some j =
      next-save k r i e ∙ next_process-turn k xs (j ∷ ys) ss i h e in
    let s = saved_lem k r i e in
    let apart =
      (Linked-tail k.processes none k.ready.first k.ready.last xs (j ∷ ys) i h.ready_list).0 in
    (
      record (save_regs k r) { current = some j; paging = some (k.processes j).pdir },
      rw (n, context_switch, s.1 j apart, user) refl,
      s.0,
      refl,
      refl,
      s.2,
      s.3,
    )
