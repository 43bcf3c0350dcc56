-- ===== src/Libc/Digits.antt =====
-- What print_num prints: the digits of the number, from which it is read back.
use native.Mathlib.Nat.{
  pow-suc, pow-zero, mul-div_cancel, div-lt_iff_lt-mul, div-div-eq-div-mul, div-add-mod',
  div-eq_of_lt, div-mul-le_self, mul_comm, mod-lt, mod-eq_of_lt, mul-le-mul_left, mul-le-mul_right,
}
use adelaideos.Common.{
  ℕ, zero, suc, ◌+◌, ◌-◌, ◌*◌, ◌/◌, ◌%◌, ◌^◌, ◌≤◌, ◌<◌, ◌≡◌, inl, inr, refl, sym, ap, ◌∙◌, true,
  false, List, [], ◌∷◌, ltb, leb, if◌then◌else◌, Bool-cases, leb→le, arith, u32_mod,
}
use adelaideos.Libc.{Output, addchar, hexdigit, mult_loop, digit_loop, print_num}

-- All of a list, put behind one another.
unfoldable pub add_all : Output → List ℕ → Output
add_all o [] = o
add_all o (c ∷ cs) = add_all (addchar o c) cs

-- How often a number can be divided by the base before it is below it.
unfoldable pub exponent : ℕ → ℕ → ℕ → ℕ
exponent zero x base = 0
exponent (suc fuel) x base = elim (leb base x) [
  | true ↦ suc (exponent fuel (x / base) base)
  | false ↦ 0
]

-- The digits from place `k` down.
unfoldable pub digits_from : ℕ → ℕ → ℕ → List ℕ
digits_from zero val base = hexdigit (val % base) ∷ []
digits_from (suc k) val base = hexdigit (val / base ^ suc k % base) ∷ digits_from k val base

unfoldable pub numeral : ℕ → ℕ → List ℕ
numeral val base = digits_from (exponent 32 val base) val base

-- The number that digits stand for, behind the number `acc`.
abbrev pub digit_value : ℕ → ℕ
digit_value c = if ltb c 58 then c - 48 else c - 87

unfoldable pub read_number : ℕ → ℕ → List ℕ → ℕ
read_number base acc [] = acc
read_number base acc (c ∷ cs) = read_number base (acc * base + digit_value c) cs

-- One round of each loop, where the number is not below the base.
module _ (fuel x base : ℕ) (t : leb base x ≡ true) where
  exponent-more : exponent (suc fuel) x base ≡ suc (exponent fuel (x / base) base)
  unfolding exponent
  exponent-more = rw (t, exponent) refl

  mult_loop-more :
      (mult : ℕ)
      → mult_loop (suc fuel) x mult base ≡ mult_loop fuel (x / base) (mult * base % u32_mod) base
  unfolding mult_loop
  mult_loop-more mult = rw (t, mult_loop) refl

  digit_loop-more :
      (mult val : ℕ) (o : Output)
      → digit_loop (suc fuel) x mult val base o
        ≡ digit_loop fuel
            (x / base)
            (mult / base)
            val
            base
            (addchar o (hexdigit (val / mult % base)))
  unfolding digit_loop
  digit_loop-more mult val o = rw (t, digit_loop) refl

module _ (fuel x base : ℕ) (f : leb base x ≡ false) where
  exponent-less : exponent (suc fuel) x base ≡ 0
  unfolding exponent
  exponent-less = rw (f, exponent) refl

  mult_loop-less : (mult : ℕ) → mult_loop (suc fuel) x mult base ≡ mult
  unfolding mult_loop
  mult_loop-less mult = rw (f, mult_loop) refl

  digit_loop-less :
      (mult val : ℕ) (o : Output) → digit_loop (suc fuel) x mult val base o ≡ (o, mult)
  unfolding digit_loop
  digit_loop-less mult val o = rw (f, digit_loop) refl

mult_loop-exponent :
    (fuel x mult base : ℕ)
    → 2 ≤ base
    → x * mult < u32_mod
    → mult_loop fuel x mult base ≡ mult * base ^ exponent fuel x base
unfolding mult_loop exponent
mult_loop-exponent zero x mult base b h = rw pow-zero (omega arith)
mult_loop-exponent (suc fuel) x mult base b h = elim (Bool-cases (leb base x)) [
  | inl t ↦
      let fits : mult * base < u32_mod =
        omega (arith, mul-le-mul_left mult (leb→le base x t), mul_comm x mult) in
      let less = mul-le-mul_right mult (div-mul-le_self x base) in
      let small : x / base * (mult * base) < u32_mod = omega (arith, less) in
      rw (mult_loop-more fuel x base t mult, exponent-more fuel x base t, mod-eq_of_lt fits)
        (rw (mult_loop-exponent fuel (x / base) (mult * base) base b small, pow-suc) (omega arith))
  | inr f ↦
      rw (mult_loop-less fuel x base f mult, exponent-less fuel x base f, pow-zero) (omega arith)
]

digit_loop-digits :
    (fuel x val base : ℕ) (o : Output)
    → 2 ≤ base
    → addchar (digit_loop fuel x (base ^ exponent fuel x base) val base o).0 (hexdigit (val % base))
      ≡ add_all o (digits_from (exponent fuel x base) val base)
unfolding digit_loop exponent add_all digits_from
digit_loop-digits zero x val base o b = refl
digit_loop-digits (suc fuel) x val base o b = elim (Bool-cases (leb base x)) [
  | inl t ↦
      let k = exponent fuel (x / base) base in
      let less : base ^ suc k / base ≡ base ^ k =
        rw pow-suc (mul-div_cancel (base ^ k) (omega arith)) in
      rw (exponent-more fuel x base t, digit_loop-more fuel x base t (base ^ suc k) val o, less)
        (digit_loop-digits fuel (x / base) val base _ b)
  | inr f ↦ rw (exponent-less fuel x base f, digit_loop-less fuel x base f (base ^ 0) val o) refl
]

exponent-bound : (fuel x base : ℕ) → 2 ≤ base → x < 2 ^ fuel → x < base ^ suc (exponent fuel x base)
unfolding exponent
exponent-bound zero x base b h = rw (pow-suc, pow-zero) (omega arith)
exponent-bound (suc fuel) x base b h = elim (Bool-cases (leb base x)) [
  | inl t ↦
      let le = mul-le-mul_left (2 ^ fuel) b in
      let twice : 2 ^ suc fuel ≡ 2 ^ fuel * 2 = pow-suc 2 fuel in
      let small : x / base < 2 ^ fuel =
        (div-lt_iff_lt-mul (omega arith)).1 (omega (arith, le, twice)) in
      rw (exponent-more fuel x base t, pow-suc)
        ((div-lt_iff_lt-mul (omega arith)).0 (exponent-bound fuel (x / base) base b small))
  | inr f ↦
      let first : base ^ 1 ≡ base = rw (pow-suc, pow-zero) (omega arith) in
      rw (exponent-less fuel x base f, first) (ground arith)
]

digit_value-hexdigit : (d : ℕ) → d < 16 → digit_value (hexdigit d) ≡ d
digit_value-hexdigit d h = ground arith

read_number-step :
    (k acc val base : ℕ)
    → val / base ^ suc k % base < 16
    → read_number base acc (digits_from (suc k) val base)
      ≡ read_number base (acc * base + val / base ^ suc k % base) (digits_from k val base)
unfolding read_number digits_from
read_number-step k acc val base h =
    ap (λ d. read_number base (acc * base + d) (digits_from k val base))
      (digit_value-hexdigit (val / base ^ suc k % base) h)

read_number-digits :
    (k val base : ℕ)
    → 2 ≤ base
    → base ≤ 16
    → read_number base (val / base ^ suc k) (digits_from k val base) ≡ val
unfolding read_number digits_from
read_number-digits zero val base b c =
    let lt : val % base < base = mod-lt val (omega arith) in
    let first : base ^ 1 ≡ base = rw (pow-suc, pow-zero) (omega arith) in
    rw (first, digit_value-hexdigit (val % base) (omega arith)) (div-add-mod' val base)
read_number-digits (suc k) val base b c =
    let rest = val / base ^ suc k in
    let lt : rest % base < base = mod-lt rest (omega arith) in
    let e : val / base ^ suc (suc k) ≡ rest / base =
      rw pow-suc (sym (div-div-eq-div-mul val (base ^ suc k) base)) in
    rw (e, read_number-step k (rest / base) val base (omega arith), div-add-mod' rest base)
      (read_number-digits k val base b c)

-- print_num puts the digits of the number behind what is there.
pub print_num-numeral :
    (o : Output) (val base : ℕ)
    → 2 ≤ base
    → val < u32_mod
    → print_num o val base ≡ add_all o (numeral val base)
unfolding print_num numeral
print_num-numeral o val base b h =
    let small : val * 1 < u32_mod = omega arith in
    let e : mult_loop 32 val 1 base ≡ base ^ exponent 32 val base =
      mult_loop-exponent 32 val 1 base b small ∙ omega arith in
    rw e (digit_loop-digits 32 val val base o b)

-- A number of 32 bits, printed in a base from 2 to 16, is read back from the digits that print_num
-- puts behind what is there.
pub print_num-read_number :
    (o : Output) (val base : ℕ)
    → 2 ≤ base
    → base ≤ 16
    → val < u32_mod
    → (print_num o val base ≡ add_all o (numeral val base))
      × (read_number base 0 (numeral val base) ≡ val)
unfolding numeral
print_num-read_number o val base b c h =
    let none_left : val / base ^ suc (exponent 32 val base) ≡ 0 =
      div-eq_of_lt (exponent-bound 32 val base b h) in
    (
      print_num-numeral o val base b h,
      rw none_left at (read_number-digits (exponent 32 val base) val base b c),
    )
