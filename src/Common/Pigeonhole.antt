-- ===== src/Common/Pigeonhole.antt =====
-- Different numbers below a bound are not more than the bound.
use Prim.Native.Nat.{ℕ, zero, suc, ◌*◌, ◌≤◌, ◌<◌}
use mathlib.Core.Path.{◌≡◌, refl, sym}
use mathlib.Core.Logic.{◌≢◌, inl, inr}
use mathlib.Core.List.{List, [], ◌∷◌}
use native.Mathlib.Omega.{arith}
use adelaideos.Common.Tests.{◌==◌, if◌then◌else◌, eq_or_ne, eq→==, ne→==}
use adelaideos.Common.Lists.{All, AllApart, length}

without : ℕ → List ℕ → List ℕ
without v [] = []
without v (x ∷ xs) = let rest = without v xs in if v == x then rest else x ∷ rest

without_lem : (v : ℕ) (xs : List ℕ) → All (λ y. v ≢ y) xs → without v xs ≡ xs
unfolding without
without_lem v [] h = refl
without_lem v (x ∷ xs) h = rw (ne→== v x h.0, without_lem v xs h.1)

length-without : (v : ℕ) (xs : List ℕ) → AllApart xs → length xs ≤ suc (length (without v xs))
unfolding without
length-without v [] h = omega arith
length-without v (x ∷ xs) h = elim (eq_or_ne v x) [
  | inl e ↦ rw (eq→== v x e, without_lem v xs (rw (← e) at h.0)) (omega arith)
  | inr n ↦ rw (ne→== v x n) (omega (arith, length-without v xs h.1))
]

-- What holds of all of a list but `v` holds of the list without it.
All-without {κ} :
    (P : ℕ → Type κ) (Q : ℕ → Type κ) (v : ℕ) (xs : List ℕ)
    → ((x : ℕ) → v ≢ x → P x → Q x)
    → All P xs
    → All Q (without v xs)
unfolding without
All-without P Q v [] f h = tt
All-without P Q v (x ∷ xs) f h = elim (eq_or_ne v x) [
  | inl e ↦ rw (eq→== v x e) (All-without P Q v xs f h.1)
  | inr n ↦ rw (ne→== v x n) (f x n h.0, All-without P Q v xs f h.1)
]

without-AllApart : (v : ℕ) (xs : List ℕ) → AllApart xs → AllApart (without v xs)
unfolding without
without-AllApart v [] h = tt
without-AllApart v (x ∷ xs) h = elim (eq_or_ne v x) [
  | inl e ↦ rw (eq→== v x e) (without-AllApart v xs h.1)
  | inr n ↦
      rw (ne→== v x n)
        (All-without (λ y. x ≢ y) (λ y. x ≢ y) v xs (λ y d p. p) h.0, without-AllApart v xs h.1)
]

-- Different multiples of `unit` below `n * unit` are at most `n`.
pub length-le_multiples :
    (unit n : ℕ) (xs : List ℕ)
    → AllApart xs
    → All (λ x. (i : ℕ) × (x ≡ i * unit) × (i < n)) xs
    → length xs ≤ n
length-le_multiples unit zero [] h b = omega arith
length-le_multiples unit zero (x ∷ xs) h b = absurd (let (i, e, lt) = b.0 in omega arith)
length-le_multiples unit (suc n) xs h b =
    let v = n * unit in
    let rest = length-le_multiples unit n (without v xs) (without-AllApart v xs h) (
      All-without (λ x. (i : ℕ) × (x ≡ i * unit) × (i < suc n))
        (λ x. (i : ℕ) × (x ≡ i * unit) × (i < n)) v xs
        (λ x ne p.
          let (i, e, lt) = p in
          (
            i,
            e,
            elim (eq_or_ne i n) [
              | inl same ↦ absurd (ne (sym (rw (← same) e)))
              | inr d ↦ omega (arith, d)
            ],
          ))
        b) in
    omega (arith, rest, length-without v xs h)
