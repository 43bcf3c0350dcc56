-- ===== src/Interrupts/Fairness.antt =====
-- Every ready process is given the processor.
use mathlib.Core.List.{append_assoc, append-nil}
use adelaideos.Common.{
  ℕ, ◌+◌, ◌≤◌, ◌≡◌, ◌∙◌, refl, sym, ap, subst, List, [], ◌∷◌, ◌++◌, All, All-append,
  All-append-left, All-append-right, length, length-append, Option, some, arith, Run, done, ◌>>=◌,
}
use adelaideos.Kernel.{Regs}
use adelaideos.Process.RoundRobin.{head}
use adelaideos.Interrupts.{Machine, Hardware, Outcome, go_on, halted, interrupt_handler}
use adelaideos.Interrupts.Tick.{IsRunning, timer_interrupt-next}

-- What an interrupt of the timer finds: the registers of the process that runs, and what the floating
-- point unit holds.
pub record Trap : Type 0 where
  pub frame : Regs
  pub fpu : List ℕ
  pub timer : frame.int_no ≡ 32

-- The machine after interrupts of the timer, one after the other; `none` if it halts.
abbrev after_trap : (Machine → Run (Option Machine)) → Outcome → Run (Option Machine)
after_trap rest (go_on r m) = rest m
after_trap rest (halted m) = done Option.none

pub run_timer : ℕ → Hardware → List Trap → Machine → Run (Option Machine)
run_timer fuel hw [] m = done (some m)
run_timer fuel hw (t ∷ ts) m = do
  out ← interrupt_handler fuel hw t.frame (record m { fpustate = t.fpu })
  after_trap (run_timer fuel hw ts) out

-- The ready list, turned so that `i` is the last.
abbrev Turned : List ℕ → ℕ → List ℕ → Type 0
Turned rs i turn = (xs : List ℕ) × (ys : List ℕ) × (rs ≡ xs ++ i ∷ ys) × (turn ≡ ys ++ xs ++ i ∷ [])

Turned-next : (rs us : List ℕ) (i u : ℕ) → Turned rs i (u ∷ us) → Turned rs u (us ++ u ∷ [])
Turned-next rs us i u (xs, y ∷ ys, e, t) =
    let first : u ≡ y = cc t in
    let rest : us ≡ ys ++ xs ++ i ∷ [] = cc t in
    (
      xs ++ i ∷ [],
      ys,
      e ∙ sym (append_assoc xs (i ∷ []) (y ∷ ys)) ∙ ap (λ r. xs ++ i ∷ [] ++ r ∷ ys) (sym first),
      ap (λ r. r ++ u ∷ []) (rest ∙ append_assoc ys xs (i ∷ [])),
    )
Turned-next rs us i u (x ∷ xs, [], e, t) =
    let first : u ≡ x = cc t in
    let rest : us ≡ xs ++ i ∷ [] = cc t in
    (
      [],
      xs ++ i ∷ [],
      e ∙ ap (λ r. r ∷ (xs ++ i ∷ [])) (sym first),
      ap (λ r. r ++ u ∷ []) (rest ∙ sym (append-nil (xs ++ i ∷ []))),
    )
Turned-next rs us i u ([], [], e, t) =
    let first : u ≡ i = cc t in
    let rest : us ≡ [] = cc t in
    ([], [], e ∙ ap (λ r. r ∷ []) (sym first), ap (λ r. r ++ u ∷ []) rest)

-- One interrupt: the first of the turned list is next.
next_turn :
    (fuel : ℕ) (hw : Hardware) (t : Trap) (m : Machine) (rs turn ss : List ℕ) (i j : ℕ)
    → IsRunning m.kernel rs ss i
    → Turned rs i turn
    → head turn ≡ some j
    → (m' : Machine) × (r' : Regs) × (interrupt_handler fuel hw t.frame
          (record m { fpustate = t.fpu })
        ≡ done (go_on r' m'))
      × IsRunning m'.kernel rs ss j
next_turn fuel hw t m rs turn ss i j h (xs, ys, e, same) first =
    let (m', r', runs, h') =
      timer_interrupt-next fuel hw t.frame (record m { fpustate = t.fpu }) xs ys ss i j t.timer
        (subst (λ r. IsRunning m.kernel r ss i) e h) (ap head (sym same) ∙ first) in
    (m', r', runs, subst (λ r. IsRunning m'.kernel r ss j) (sym e) h')

run_timer-step :
    (fuel : ℕ) (hw : Hardware) (t : Trap) (ts : List Trap) (m m' : Machine) (r : Regs)
    → interrupt_handler fuel hw t.frame (record m { fpustate = t.fpu }) ≡ done (go_on r m')
    → run_timer fuel hw (t ∷ ts) m ≡ run_timer fuel hw ts m'
unfolding run_timer
run_timer-step fuel hw t ts m m' r e = rw e refl

-- The process behind `us` in the turned list runs after one interrupt more than these are.
run_timer-turn :
    (fuel : ℕ) (hw : Hardware) (us : List ℕ) (ts : List Trap) (m : Machine) (rs ss vs : List ℕ)
    (i j : ℕ)
    → IsRunning m.kernel rs ss i
    → Turned rs i (us ++ j ∷ vs)
    → length ts ≡ length us + 1
    → (m' : Machine) × (run_timer fuel hw ts m ≡ done (some m')) × IsRunning m'.kernel rs ss j
run_timer-turn fuel hw [] [] m rs ss vs i j h turn n = absurd (omega arith)
run_timer-turn fuel hw [] (t ∷ t' ∷ ts) m rs ss vs i j h turn n = absurd (omega arith)
run_timer-turn fuel hw [] (t ∷ []) m rs ss vs i j h turn n =
    let (m', r', runs, h') = next_turn fuel hw t m rs (j ∷ vs) ss i j h turn refl in
    (m', run_timer-step fuel hw t [] m m' r' runs ∙ unfold run_timer in refl, h')
run_timer-turn fuel hw (u ∷ us) [] m rs ss vs i j h turn n = absurd (omega arith)
run_timer-turn fuel hw (u ∷ us) (t ∷ ts) m rs ss vs i j h turn n =
    let (m1, r1, runs, h1) = next_turn fuel hw t m rs (u ∷ (us ++ j ∷ vs)) ss i u h turn refl in
    let turn1 : Turned rs u (us ++ j ∷ (vs ++ u ∷ [])) =
      subst (Turned rs u) (append_assoc us (j ∷ vs) (u ∷ []))
        (Turned-next rs (us ++ j ∷ vs) i u turn) in
    let (m', more, h') =
      run_timer-turn fuel hw us ts m1 rs ss (vs ++ u ∷ []) u j h1 turn1 (omega arith) in
    (m', run_timer-step fuel hw t ts m m1 r1 runs ∙ more, h')

-- After some number of interrupts, at most `bound`, the process `j` is current.
abbrev pub GetsTurn : ℕ → Hardware → Machine → ℕ → ℕ → Type 0
GetsTurn fuel hw m bound j =
    (n : ℕ) × (1 ≤ n)
    × (n ≤ bound)
    × ((ts : List Trap)
        → length ts ≡ n
        → (m' : Machine) × (run_timer fuel hw ts m ≡ done (some m')) × (m'.kernel.current ≡ some j))

turns :
    (fuel : ℕ) (hw : Hardware) (m : Machine) (rs ss us vs : List ℕ) (i : ℕ)
    → IsRunning m.kernel rs ss i
    → Turned rs i (us ++ vs)
    → length (us ++ vs) ≤ length rs
    → All (GetsTurn fuel hw m (length rs)) vs
turns fuel hw m rs ss us [] i h turn n = tt
turns fuel hw m rs ss us (j ∷ vs) i h turn n =
    let long = length-append {0} us (j ∷ vs) in
    let again = sym (append_assoc us (j ∷ []) vs) in
    (
      (
        length us + 1,
        omega arith,
        omega (arith, long),
        λ ts size.
            let (m', runs, h') = run_timer-turn fuel hw us ts m rs ss vs i j h turn size in
            (m', runs, h'.running),
      ),
      turns fuel hw m rs ss (us ++ j ∷ []) vs i h (subst (Turned rs i) again turn)
          (omega (arith, ap length again)),
    )

-- Where the lists are well formed, `i` is the current process, it is in the ready list, and no ready
-- process is in a system call: each ready process becomes the current one after some number of
-- interrupts of the timer, at least one and at most as many as there are ready processes, whatever
-- registers the processes have at each of them; the handler comes back from each.
pub run_timer-GetsTurn :
    (fuel : ℕ) (hw : Hardware) (m : Machine) (xs ys ss : List ℕ) (i : ℕ)
    → IsRunning m.kernel (xs ++ i ∷ ys) ss i
    → All (GetsTurn fuel hw m (length (xs ++ i ∷ ys))) (xs ++ i ∷ ys)
run_timer-GetsTurn fuel hw m xs ys ss i h =
    let P = GetsTurn fuel hw m (length (xs ++ i ∷ ys)) in
    let turn = ys ++ xs ++ i ∷ [] in
    let l1 = length-append {0} xs (i ∷ ys) in
    let l2 = length-append {0} (ys ++ xs) (i ∷ []) in
    let l3 = length-append {0} ys xs in
    let all =
      turns fuel hw m (xs ++ i ∷ ys) ss [] turn i h (xs, ys, refl, refl)
        (omega (arith, l1, l2, l3)) in
    let front = All-append-left P (ys ++ xs) (i ∷ []) all in
    let last = All-append-right P (ys ++ xs) (i ∷ []) all in
    All-append P xs (i ∷ ys) (All-append-right P ys xs front)
      (last.0, All-append-left P ys xs front)
