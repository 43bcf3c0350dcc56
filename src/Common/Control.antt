-- ===== src/Common/Control.antt =====
-- Runs of kernel code that may never return to its caller, and the loop of a C `for`.
use Prim.Native.Nat.{ℕ, zero, suc, ◌+◌}
use mathlib.Core.Path.{◌≡◌, refl}
use mathlib.Core.Bool.{Bool, true, false}
use native.Mathlib.Omega.{arith}

-- Why control does not come back: a failed `assert` (also `assert(0)` and `assert(!"…")`), an access
-- to an address that no page maps, a field read through NULL, a read behind the end of an array, or a
-- loop not left within its fuel; for the tool of the host also a call of exit(-1), and a path that is cut
-- off, so that it names something else.
pub data Stop : Type 0 where
  assert_failed : Stop
  page_fault : Stop
  null_access : Stop
  overrun : Stop
  no_fuel : Stop
  gave_up : Stop
  path_cut : Stop

pub data Run {ℓ} (A : Type ℓ) : Type ℓ where
  done : A → Run A
  stop : Stop → Run A

infixl 5 ◌>>=◌ ◌>>◌
abbrev pub ◌>>=◌ {ℓ κ} : {A : Type ℓ} {B : Type κ} → Run A → (A → Run B) → Run B
done a >>= f = f a
stop e >>= f = stop e

abbrev pub ◌>>◌ {ℓ} : {B : Type ℓ} → Run (Unit {0}) → Run B → Run B
m >> k = m >>= λ _. k

-- A run that has come to a result goes on with it.
pub >>=-done {ℓ κ} :
    {A : Type ℓ} {B : Type κ} (m : Run A) (f : A → Run B) (a : A) → m ≡ done a → (m >>= f) ≡ f a
>>=-done m f a e = rw e refl

abbrev pub assert : Bool → Run (Unit {0})
assert true = done tt
assert false = stop assert_failed

-- An assertion that holds.
pub assert-pass {ℓ} : {B : Type ℓ} (b : Bool) (k : Run B) → b ≡ true → (assert b >> k) ≡ k
assert-pass b k e = rw e refl

-- The state after `rounds` rounds of for (i = 0; i < rounds; i++).
unfoldable pub for_below {ℓ} : {S : Type ℓ} → ℕ → (ℕ → S → S) → S → S
for_below zero round s = s
for_below (suc i) round s = round i (for_below i round s)

-- What holds at first and is kept by each round holds at the end.
pub for_below-keeps {ℓ κ} :
    {S : Type ℓ} (round : ℕ → S → S) (Holds : ℕ → S → Type κ) (start : S)
    → Holds 0 start
    → ((i : ℕ) (now : S) → Holds i now → Holds (i + 1) (round i now))
    → (rounds : ℕ) → Holds rounds (for_below rounds round start)
unfolding for_below
for_below-keeps round Holds start first next zero = first
for_below-keeps round Holds start first next (suc i) =
    let step = next i (for_below i round start) (for_below-keeps round Holds start first next i) in
    let count : i + 1 ≡ suc i = omega arith in rw count at step
