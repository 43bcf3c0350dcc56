-- ===== src/Interrupts/Tick.antt =====
-- One interrupt of the timer, while all ready processes run in user mode.
use adelaideos.Common.{
  ℕ, ◌+◌, ◌%◌, Bool, subst, u32_mod, All-All, eq→==, ◌==◌, All-append, All-append-left,
  All-append-right, ◌≡◌, ◌∙◌, refl, List, [], ◌∷◌, ◌++◌, All, All-map, take, none, some, true,
  false, arith, done,
}
use adelaideos.Kernel.{Regs, Process, Kernel}
use adelaideos.ProcessList.Linked.{SameLinks, Linked-frame}
use adelaideos.Screen.{Screen}
use adelaideos.Process.Lists.{Marked, IsScheduled}
use adelaideos.Process.Switch.{Idle, next_process, save_regs, context_switch}
use adelaideos.Process.RoundRobin.{head, next_process-turn, next-save}
use adelaideos.Interrupts.{
  Machine, Hardware, switch, go_on, timer_handler, dispatch, acknowledge, interrupt_handler,
}

-- Saving registers leaves the lists and the calls alone.
record SameState (p q : Process) : Type 0 where
  same_prev : q.prev ≡ p.prev
  same_next : q.next ≡ p.next
  same_ready : q.ready ≡ p.ready
  same_exists : q.exists ≡ p.exists
  same_call : q.in_syscall ≡ p.in_syscall

save_regs-SameState :
    (k : Kernel) (r : Regs) (j : ℕ) → SameState (k.processes j) ((save_regs k r).processes j)
unfolding save_regs
save_regs-SameState k r j = ground arith

-- The lists are well formed, `i` is the current process, and no ready process is in a system call.
pub record IsRunning (k : Kernel) (rs ss : List ℕ) (i : ℕ) : Type 0 where
  pub scheduled : IsScheduled k rs ss
  pub running : k.current ≡ some i
  pub user_mode : All (λ j. (k.processes j).in_syscall ≡ 0) rs

-- The kernel after a switch to `j`.
abbrev switched : Kernel → Regs → ℕ → Kernel
switched k r j = record (save_regs k r) {
  current = some j;
  paging = some ((save_regs k r).processes j).pdir;
}

save_regs-lists :
    (k : Kernel) (r : Regs)
    → ((save_regs k r).ready ≡ k.ready) × ((save_regs k r).suspended ≡ k.suspended)
unfolding save_regs
save_regs-lists k r = ground arith

-- The display does not matter.
switched-IsRunning :
    (k : Kernel) (r : Regs) (rs ss : List ℕ) (i j : ℕ) (s : Screen)
    → IsRunning k rs ss i
    → IsRunning (record (switched k r j) { display = s }) rs ss j
switched-IsRunning k r rs ss i j s h =
    let t = k.processes in
    let u = (save_regs k r).processes in
    let same = save_regs-SameState k r in
    let links : (x : ℕ) → SameLinks t u x = λ x. ((same x).same_prev, (same x).same_next) in
    let lists = save_regs-lists k r in
    let flags : (b : Bool) (x : ℕ) → Marked b t x → Marked b u x =
      λ b x m. ((same x).same_exists ∙ m.0, (same x).same_ready ∙ m.1) in
    let sc = h.scheduled in
    record {
      scheduled = record {
        ready_list = rw lists.0 (
            Linked-frame t u none k.ready.first k.ready.last rs sc.ready_list
              (All-All (SameLinks t u) rs links));
        suspended_list = rw lists.1 (
            Linked-frame t u none k.suspended.first k.suspended.last ss sc.suspended_list
              (All-All (SameLinks t u) ss links));
        apart = sc.apart;
        runnable = All-map (Marked true t) (Marked true u) rs (flags true) sc.runnable;
        waiting = All-map (Marked false t) (Marked false u) ss (flags false) sc.waiting;
      };
      running = refl;
      user_mode =
          All-map (λ x. (t x).in_syscall ≡ 0) (λ x. (u x).in_syscall ≡ 0) rs
            (λ x e. (same x).same_call ∙ e) h.user_mode;
    }

-- A switch to a process that was not suspended in a system call.
context_switch-to :
    (fuel : ℕ) (idle : Idle) (r : Regs) (k : Kernel) (j : ℕ)
    → next_process (save_regs k r) ≡ some j
    → ((save_regs k r).processes j).in_syscall ≡ 0
    → switch fuel idle r k ≡ done (((save_regs k r).processes j).saved_regs, switched k r j)
unfolding context_switch
context_switch-to fuel idle r k j n user = rw (n, context_switch) (rw user refl)

All-head : (P : ℕ → Type 0) (xs : List ℕ) (j : ℕ) → All P xs → head xs ≡ some j → P j
All-head P [] j h e = absurd (cc e)
All-head P (x ∷ xs) j h e = subst P (cc e) h.0

pub All-turn :
    (P : ℕ → Type 0) (xs ys : List ℕ) (i : ℕ) → All P (xs ++ i ∷ ys) → All P (ys ++ xs ++ i ∷ [])
All-turn P xs ys i h =
    let right = All-append-right P xs (i ∷ ys) h in
    All-append P (ys ++ xs) (i ∷ []) (All-append P ys xs right.1 (All-append-left P xs (i ∷ ys) h))
      (right.0, tt)

dispatch-timer :
    (fuel : ℕ) (hw : Hardware) (r : Regs) (m : Machine)
    → (r.int_no == 32) ≡ true
    → dispatch fuel hw r m ≡ timer_handler fuel hw.idle r m
unfolding dispatch
dispatch-timer fuel hw r m e = rw e refl

timer_handler-to :
    (fuel : ℕ) (idle : Idle) (r : Regs) (m : Machine) (next : Regs × Kernel)
    → switch fuel idle r m.kernel ≡ done next
    → timer_handler fuel idle r m
      ≡ done
          (go_on next.0 (record m { kernel = next.1; timer_ticks = (m.timer_ticks + 1) % u32_mod }))
unfolding timer_handler
timer_handler-to fuel idle r m next e = rw e refl

-- The timer hands the processor to the process behind the current one, around the ready list.
pub timer_interrupt-next :
    (fuel : ℕ) (hw : Hardware) (r : Regs) (m : Machine) (xs ys ss : List ℕ) (i j : ℕ)
    → r.int_no ≡ 32
    → IsRunning m.kernel (xs ++ i ∷ ys) ss i
    → head (ys ++ xs ++ i ∷ []) ≡ some j
    → (m' : Machine) × (r' : Regs) × (interrupt_handler fuel hw r m ≡ done (go_on r' m'))
      × IsRunning m'.kernel (xs ++ i ∷ ys) ss j
unfolding interrupt_handler
timer_interrupt-next fuel hw r m xs ys ss i j timer h e =
    let k = m.kernel in
    let frame : Regs = record r { fstate = take 27 m.fpustate } in
    let n : next_process (save_regs k frame) ≡ some j =
      next-save k frame i h.running ∙ next_process-turn k xs ys ss i h.scheduled h.running ∙ e in
    let calls = All-turn (λ x. (k.processes x).in_syscall ≡ 0) xs ys i h.user_mode in
    let user =
      (save_regs-SameState k frame j).same_call
      ∙ All-head (λ x. (k.processes x).in_syscall ≡ 0) (ys ++ xs ++ i ∷ []) j calls e in
    let next = switched k frame j in
    let regs = ((save_regs k frame).processes j).saved_regs in
    let shown = acknowledge r.int_no next.display in
    let run =
      dispatch-timer fuel hw frame m (eq→== r.int_no 32 timer)
      ∙ timer_handler-to fuel hw.idle frame m (regs, next)
          (context_switch-to fuel hw.idle frame k j n user) in
    (
      record m {
        kernel = record next { display = shown };
        timer_ticks = (m.timer_ticks + 1) % u32_mod;
        fpustate = take 27 regs.fstate;
      },
      regs,
      rw run refl,
      switched-IsRunning k frame (xs ++ i ∷ ys) ss i j shown h,
    )
