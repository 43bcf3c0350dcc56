-- ===== src/Libc.antt =====
-- source/libc.c: strings and printing of numbers. A list of bytes stands for an array of `char` with
-- a NUL behind it, so `s[i]` is `get_or s i 0`; an element 0 is a NUL of its own.
pub mod Compare
pub mod Format
pub mod Digits
pub mod Shown
pub mod Render
pub mod Fields
pub mod Printed
use adelaideos.Common.{
  ℕ, zero, suc, ◌+◌, ◌-◌, ◌*◌, ◌/◌, ◌%◌, Bool, true, false, List, [], ◌∷◌, get_or, ltb, leb, ◌==◌,
  if◌then◌else◌, set, u32_mod, ℤ, pos, negsuc,
}

unfoldable pub strlen : List ℕ → ℕ
strlen [] = 0
strlen (c ∷ cs) = let rest = strlen cs in if c == 0 then 0 else rest + 1

-- The difference of two values of type `char`, which is signed.
unfoldable pub char_diff : ℕ → ℕ → ℤ
char_diff a b =
    let x = (a + 128) % 256 in
    let y = (b + 128) % 256 in if leb y x then pos (x - y) else negsuc (y - x - 1)

-- What follows the loop, when one of the strings has ended.
abbrev ended : List ℕ → List ℕ → ℤ
ended s1 s2 = if get_or s1 0 0 == 0 then (if get_or s2 0 0 == 0 then pos 0 else pos 1) else negsuc 0

-- The lists are what is left behind `pos`.
unfoldable pub strcmp : List ℕ → List ℕ → ℤ
strcmp [] t = ended [] t
strcmp (a ∷ s) [] = ended (a ∷ s) []
strcmp (a ∷ s) (b ∷ t) =
    let rest = strcmp s t in
    if a == 0
    then ended (a ∷ s) (b ∷ t)
    else if b == 0
    then ended (a ∷ s) (b ∷ t)
    else if a == b
    then rest
    else char_diff a b

-- `pos < n` holds behind the loop.
abbrev ended_n : List ℕ → ℤ
ended_n s2 = if get_or s2 0 0 == 0 then pos 1 else negsuc 0

unfoldable pub strncmp : List ℕ → List ℕ → ℕ → ℤ
strncmp s t zero = pos 0
strncmp [] t (suc n) = ended_n t
strncmp (a ∷ s) [] (suc n) = ended_n []
strncmp (a ∷ s) (b ∷ t) (suc n) =
    let rest = strncmp s t n in
    if a == 0
    then ended_n (b ∷ t)
    else if b == 0
    then ended_n (b ∷ t)
    else if a == b
    then rest
    else char_diff a b

abbrev pub is_zero : ℤ → Bool
is_zero (pos zero) = true
is_zero (pos (suc n)) = false
is_zero (negsuc n) = false

-- The output of the printing functions: the array `str` of `size` bytes, and `*pos`, a word of 32 bits.
pub record Output : Type 0 where
  pub str : List ℕ
  pub size : ℕ
  pub at : ℕ

unfoldable pub addchar : Output → ℕ → Output
addchar o c = record {
  str = if ltb ((o.at + 1) % u32_mod) o.size then set o.str o.at c else o.str;
  size = o.size;
  at = (o.at + 1) % u32_mod;
}

abbrev hexdigit : ℕ → ℕ
hexdigit d = if ltb d 10 then d + 48 else d + 87

-- for (; x >= base; x /= base, mult *= base) digits++;
unfoldable pub mult_loop : ℕ → ℕ → ℕ → ℕ → ℕ
mult_loop zero x mult base = mult
mult_loop (suc fuel) x mult base = elim (leb base x) [
  | true ↦ mult_loop fuel (x / base) (mult * base % u32_mod) base
  | false ↦ mult
]

unfoldable pub digit_loop : ℕ → ℕ → ℕ → ℕ → ℕ → Output → Output × ℕ
digit_loop zero x mult val base o = (o, mult)
digit_loop (suc fuel) x mult val base o = elim (leb base x) [
  | true ↦
      digit_loop fuel (x / base) (mult / base) val base (addchar o (hexdigit (val / mult % base)))
  | false ↦ (o, mult)
]

-- The fuel: a number of 32 bits has at most 32 digits in any base from 2 on.
unfoldable pub print_num : Output → ℕ → ℕ → Output
print_num o val base =
    let mult = mult_loop 32 val 1 base in
    let (o, mult) = digit_loop 32 val mult val base o in addchar o (hexdigit (val % base))
