-- ===== src/Buddy/Sizes.antt =====
-- Block sizes and buddies.
use native.Mathlib.Nat.{two-pow-succ, pow-le-pow_right, one-le-pow}
use native.Mathlib.Numerals.{add-one}
use adelaideos.Common.{
  ℕ, zero, suc, ◌+◌, ◌-◌, ◌*◌, ◌/◌, ◌%◌, ◌^◌, ◌≤◌, ◌<◌, ◌≡◌, refl, ◌⊎◌, inl, inr, eq_or_ne,
  Bool-cases, arith, leb, ◌==◌, if◌then◌else◌, u32_mod, done, stop, no_fuel, leb→le, le→leb, true,
  sym, ap, eq→==, ne→==,
}
use adelaideos.Buddy.{MemArea, get_sizem, mforsize_loop, mforsize, get_buddy}

pow-pos : (m : ℕ) → 1 ≤ 2 ^ m
pow-pos m = one-le-pow m 2 (omega arith)

-- 2 ^ m is the least power of two above `n`.
abbrev IsExponent : ℕ → ℕ → Type 0
IsExponent n m = (n < 2 ^ m) × ((m ≡ 0) ⊎ (2 ^ (m - 1) ≤ n))

next_power : (m : ℕ) → m < 31 → 2 ^ m * 2 % u32_mod ≡ 2 ^ (m + 1)
next_power m h =
    let e : 2 ^ (m + 1) ≡ 2 ^ m + 2 ^ m = simp add-one (two-pow-succ m) in
    let b : 2 ^ m ≤ 2 ^ 30 = pow-le-pow_right (omega arith) {i = m} {j = 30} (omega arith) in
    omega (arith, e, b)

below_31 : (m n : ℕ) → m ≤ 31 → n < 2 ^ 31 → 2 ^ m ≤ n → m < 31
below_31 m n h lt le = elim (eq_or_ne m 31) [
  | inl e ↦ absurd (let k : 2 ^ 31 ≤ n = rw e at le in omega arith)
  | inr ne ↦ omega arith
]

mforsize_loop_lem :
    (fuel n m : ℕ)
    → n < 2 ^ 31
    → m ≤ 31
    → 32 ≤ m + fuel
    → (m ≡ 0) ⊎ (2 ^ (m - 1) ≤ n)
    → (r : ℕ) × (mforsize_loop fuel (2 ^ m) n m ≡ done r) × IsExponent n r
unfolding mforsize_loop
mforsize_loop_lem zero n m lt small enough low = absurd (omega arith)
mforsize_loop_lem (suc fuel) n m lt small enough low = elim (Bool-cases (leb (2 ^ m) n)) [
  | inl more ↦
      let le = leb→le (2 ^ m) n more in
      let b = below_31 m n small lt le in
      let prev : 2 ^ (m + 1 - 1) ≤ n = let e : m + 1 - 1 ≡ m = omega arith in rw e le in
      rw (more, mforsize_loop, next_power m b)
        (mforsize_loop_lem fuel n (m + 1) lt (omega arith) (omega arith) (inr prev))
  | inr stops ↦ (m, rw (stops, mforsize_loop) refl, (ground arith, low))
]

pub mforsize-least :
    (ma : MemArea) (nbytes : ℕ)
    → nbytes < 2 ^ 31
    → (m : ℕ) × (mforsize ma nbytes ≡ done m)
      × (ma.lower ≤ m)
      × (nbytes < 2 ^ m)
      × ((m ≡ ma.lower) ⊎ (2 ^ (m - 1) ≤ nbytes))
unfolding mforsize
mforsize-least ma nbytes small =
    let (r, e, least) =
      mforsize_loop_lem 33 nbytes 0 small (omega arith) (omega arith) (inl refl) in
    let (above, low) = least in
    elim (Bool-cases (leb ma.lower r)) [
      | inl fits ↦ (
        r,
        rw (e, fits) refl,
        leb→le ma.lower r fits,
        above,
        elim low [ inl z ↦ inl (omega (arith, leb→le ma.lower r fits)) | inr p ↦ inr p ],
      )
      | inr larger ↦ (
        ma.lower,
        rw (e, larger) refl,
        omega arith,
        (let lt : r < ma.lower = ground arith in
            let p : 2 ^ r ≤ 2 ^ ma.lower = pow-le-pow_right (omega arith) (omega arith) in
            omega arith),
        inl refl,
      )
    ]

power-lt-power : (a b : ℕ) → 2 ^ a < 2 ^ b → a < b
power-lt-power a b h = elim (Bool-cases (leb b a)) [
  | inl le ↦
      let p : 2 ^ b ≤ 2 ^ a = pow-le-pow_right (omega arith) (leb→le b a le) in absurd (omega arith)
  | inr gt ↦ ground arith
]

-- For a request between two powers of two, below 2 ^ 31 bytes, the size is found: it is rounded up to
-- the least power of two that holds the request and is not below the granularity.
pub mforsize-rounded :
    (ma : MemArea) (nbytes k : ℕ)
    → nbytes < 2 ^ 31
    → 2 ^ k < nbytes
    → nbytes < 2 ^ (k + 1)
    → (m : ℕ) × (mforsize ma nbytes ≡ done m)
      × (ma.lower ≤ m)
      × (nbytes ≤ 2 ^ m)
      × ((x : ℕ) → ma.lower ≤ x → nbytes ≤ 2 ^ x → m ≤ x)
mforsize-rounded ma nbytes k small above below =
    let (m, e, coarse, fits, low) = mforsize-least ma nbytes small in
    (
      m,
      e,
      coarse,
      omega arith,
      λ x c h. elim low [
        | inl same ↦ omega arith
        | inr half ↦
            let a = power-lt-power (m - 1) (k + 1) (omega arith) in
            let b = power-lt-power k x (omega arith) in omega arith
      ],
    )

zero_loop : (fuel n m : ℕ) → mforsize_loop fuel 0 n m ≡ stop no_fuel
unfolding mforsize_loop
zero_loop zero n m = refl
zero_loop (suc fuel) n m =
    let t : leb 0 n ≡ true = ground arith in rw (t, mforsize_loop) (zero_loop fuel n (m + 1))

power_loop : (fuel n m k : ℕ) → 2 ^ 31 ≤ n → k ≤ 31 → mforsize_loop fuel (2 ^ k) n m ≡ stop no_fuel
unfolding mforsize_loop
power_loop zero n m k big h = refl
power_loop (suc fuel) n m k big h =
    let b : 2 ^ k ≤ 2 ^ 31 = pow-le-pow_right (omega arith) h in
    let t : leb (2 ^ k) n ≡ true = le→leb (2 ^ k) n (omega arith) in
    elim (eq_or_ne k 31) [
      | inl e ↦
          let wraps : 2 ^ k * 2 % u32_mod ≡ 0 = rw e refl in
          rw (t, mforsize_loop, wraps) (zero_loop fuel n (m + 1))
      | inr ne ↦
          rw (t, mforsize_loop, next_power k (omega arith))
            (power_loop fuel n (m + 1) (k + 1) big (omega arith))
    ]

-- For a request of 2 ^ 31 bytes or more the loop of `mforsize` does not end, however long it runs:
-- the power of two wraps to 0.
pub mforsize_loop-endless :
    (fuel nbytes : ℕ) → 2 ^ 31 ≤ nbytes → mforsize_loop fuel 1 nbytes 0 ≡ stop no_fuel
mforsize_loop-endless fuel nbytes big = power_loop fuel nbytes 0 0 big (omega arith)

-- The buddy of the block number `q` among the blocks of size 2 ^ m.
abbrev pub buddy_number : ℕ → ℕ
buddy_number q = if q % 2 == 0 then q + 1 else q - 1

less_one : (P q : ℕ) → 1 ≤ q → (q - 1) * P ≡ q * P - P
less_one P zero h = absurd (omega arith)
less_one P (suc r) h =
    let e : suc r * P ≡ r * P + P = grind arith in
    let f : suc r - 1 ≡ r = omega arith in rw f (omega (arith, e))

bit_lem : (P q : ℕ) → 0 < P → (q * P) / P ≡ q
bit_lem P q h = grind arith

number_lem :
    (P q : ℕ)
    → (if q % 2 == 1
        then if q % 2 == 1 then q * P - P else q * P
        else (if q % 2 == 1 then q * P else q * P + P))
      ≡ buddy_number q * P
number_lem P q = elim (eq_or_ne (q % 2) 1) [
  | inl e ↦
      let p : (q - 1) * P ≡ q * P - P = less_one P q (omega arith) in
      rw (eq→== (q % 2) 1 e, ne→== (q % 2) 0 (omega arith)) (sym p)
  | inr ne ↦
      let p : (q + 1) * P ≡ q * P + P = grind arith in
      rw (ne→== (q % 2) 1 ne, eq→== (q % 2) 0 (omega arith)) (sym p)
]

-- For an aligned block of a size that the area has, the block that `get_buddy` finds is the other half
-- of the block of twice the size: its number among the blocks of this size differs in the last bit.
pub get_buddy-number :
    (ma : MemArea) (q m : ℕ)
    → get_sizem ma (q * 2 ^ m) ≡ m
    → ma.lower ≤ m
    → m ≤ ma.upper
    → get_buddy ma (q * 2 ^ m) ≡ done (buddy_number q * 2 ^ m)
unfolding get_buddy
get_buddy-number ma q m e lo hi =
    let d = bit_lem (2 ^ m) q (pow-pos m) in
    rw (e, le→leb ma.lower m lo, le→leb m ma.upper hi, d) (ap done (number_lem (2 ^ m) q))
