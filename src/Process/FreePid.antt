-- ===== src/Process/FreePid.antt =====
-- The pid for a new process is the least that is free.
use adelaideos.Common.{
  ℕ, zero, suc, ◌+◌, ◌≤◌, ◌<◌, ◌≡◌, refl, true, false, Option, none, some, arith, inl, inr,
  Bool-cases, eq_or_ne,
}
use adelaideos.Kernel.{Process}
use adelaideos.Process.{free_pid_loop, get_free_pid}

-- Every pid from `from` up to `upto` is taken.
abbrev pub Taken : (ℕ → Process) → ℕ → ℕ → Type 0
Taken t from upto = (q : ℕ) → from ≤ q → q < upto → (t q).exists ≡ true

-- `o` is the least free pid from `from` up to `upto`, or `none` if there is none.
abbrev pub IsLeastFree : (ℕ → Process) → ℕ → ℕ → Option ℕ → Type 0
IsLeastFree t from upto none = Taken t from upto
IsLeastFree t from upto (some p) = (from ≤ p) × (p < upto) × ((t p).exists ≡ false) × Taken t from p

extend :
    (t : ℕ → Process) (from upto : ℕ) (o : Option ℕ)
    → from < upto
    → (t from).exists ≡ true
    → IsLeastFree t (from + 1) upto o
    → IsLeastFree t from upto o
extend t from upto none lt e h =
    λ q a b. elim (eq_or_ne from q) [ inl same ↦ rw (← same) e | inr ne ↦ h q (omega arith) b ]
extend t from upto (some p) lt e h = (
  omega arith,
  h.1,
  h.2,
  λ q a b. elim (eq_or_ne from q) [ inl same ↦ rw (← same) e | inr ne ↦ h.3 q (omega arith) b ],
)

loop_lem :
    (rounds : ℕ) (t : ℕ → Process) (pid upto : ℕ)
    → pid + rounds ≡ upto
    → IsLeastFree t pid upto (free_pid_loop rounds t pid)
unfolding free_pid_loop
loop_lem zero t pid upto e = λ q a b. absurd (omega arith)
loop_lem (suc rounds) t pid upto e = elim (Bool-cases (t pid).exists) [
  | inl taken ↦ rw taken (
      extend t pid upto (free_pid_loop rounds t (pid + 1)) (omega arith) taken
        (loop_lem rounds t (pid + 1) upto (omega arith)))
  | inr free ↦ rw free (omega arith, omega arith, free, λ q a b. absurd (omega arith))
]

-- `get_free_pid` finds the least free pid between 1 and 31, and fails only if all of them are taken.
pub get_free_pid-IsLeastFree : (t : ℕ → Process) → IsLeastFree t 1 32 (get_free_pid t)
unfolding get_free_pid
get_free_pid-IsLeastFree t = loop_lem 31 t 1 32 refl
