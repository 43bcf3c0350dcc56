-- ===== src/Libc/Compare.antt =====
-- What the comparisons of strings find.
use native.Mathlib.Numerals.{add-one}
use adelaideos.Common.{
  ℕ, zero, suc, ◌≤◌, ◌<◌, ◌≡◌, ◌≢◌, ◌↔◌, inl, inr, true, false, List, [], ◌∷◌, ◌++◌, All, length,
  take, eq_or_ne, eq→==, ne→==, arith, refl, pos,
}
use adelaideos.Libc.{strlen, char_diff, strcmp, strncmp, is_zero}

-- A character of a string: a byte that is not NUL.
abbrev pub IsChar : ℕ → Type 0
IsChar c = (c ≢ 0) × (c < 256)

char_diff-ne : (a b : ℕ) → a < 256 → b < 256 → a ≢ b → is_zero (char_diff a b) ≡ false
unfolding char_diff
char_diff-ne a b ha hb n = ground arith

-- Two strings of bytes other than NUL compare as 0 exactly if they are equal.
pub strcmp-equal :
    (s t : List ℕ) → All IsChar s → All IsChar t → (is_zero (strcmp s t) ≡ true) ↔ (s ≡ t)
unfolding strcmp
strcmp-equal [] [] hs ht = (λ _. refl, λ _. refl)
strcmp-equal [] (b ∷ t) hs ht = rw (ne→== b 0 ht.0.0) ((λ e. absurd (cc e)), (λ e. absurd (cc e)))
strcmp-equal (a ∷ s) [] hs ht = rw (ne→== a 0 hs.0.0) ((λ e. absurd (cc e)), (λ e. absurd (cc e)))
strcmp-equal (a ∷ s) (b ∷ t) hs ht = elim (eq_or_ne a b) [
  | inl e ↦
      let ih = strcmp-equal s t hs.1 ht.1 in
      rw (ne→== a 0 hs.0.0, ne→== b 0 ht.0.0, eq→== a b e)
        ((λ z. cc (ih.0 z, e)), (λ p. ih.1 (cc p)))
  | inr n ↦
      rw (ne→== a 0 hs.0.0, ne→== b 0 ht.0.0, ne→== a b n, char_diff-ne a b hs.0.1 ht.0.1 n)
        ((λ z. absurd (cc z)), (λ p. absurd (n (cc p))))
]

-- Where both strings have `n` characters, strncmp finds 0 exactly if these are equal.
pub strncmp-equal :
    (s t : List ℕ) (n : ℕ)
    → n ≤ length s
    → n ≤ length t
    → All IsChar (take n s)
    → All IsChar (take n t)
    → (is_zero (strncmp s t n) ≡ true) ↔ (take n s ≡ take n t)
unfolding strncmp
strncmp-equal s t zero ls lt hs ht = (λ _. refl, λ _. refl)
strncmp-equal [] t (suc n) ls lt hs ht = absurd (omega arith)
strncmp-equal (a ∷ s) [] (suc n) ls lt hs ht = absurd (omega arith)
strncmp-equal (a ∷ s) (b ∷ t) (suc n) ls lt hs ht = elim (eq_or_ne a b) [
  | inl e ↦
      let ih = strncmp-equal s t n (omega arith) (omega arith) hs.1 ht.1 in
      rw (ne→== a 0 hs.0.0, ne→== b 0 ht.0.0, eq→== a b e)
        ((λ z. cc (ih.0 z, e)), (λ p. ih.1 (cc p)))
  | inr n ↦
      rw (ne→== a 0 hs.0.0, ne→== b 0 ht.0.0, ne→== a b n, char_diff-ne a b hs.0.1 ht.0.1 n)
        ((λ z. absurd (cc z)), (λ p. absurd (n (cc p))))
]

-- What strlen counts of a list of bytes are its first characters.
pub strlen-IsChar :
    (s : List ℕ) → All (λ c. c < 256) s → (strlen s ≤ length s) × All IsChar (take (strlen s) s)
unfolding strlen
strlen-IsChar [] h = (omega arith, tt)
strlen-IsChar (c ∷ s) h = elim (eq_or_ne c 0) [
  | inl e ↦ rw (eq→== c 0 e) (omega arith, tt)
  | inr n ↦
      let ih = strlen-IsChar s h.1 in
      rw (ne→== c 0 n, add-one) (omega (arith, ih.0), ((n, h.0), ih.1))
]

-- A string of bytes other than NUL compares as larger than every string that it is a proper prefix
-- of.
strcmp-prefix : (s t : List ℕ) (c : ℕ) → All IsChar s → c ≢ 0 → strcmp s (s ++ c ∷ t) ≡ pos 1
unfolding strcmp
strcmp-prefix [] t c hs n = rw (ne→== c 0 n) refl
strcmp-prefix (a ∷ s) t c hs n = rw (ne→== a 0 hs.0.0, eq→== a a refl) (strcmp-prefix s t c hs.1 n)

-- A string of bytes other than NUL that is shorter than `n` does not compare as equal to itself:
-- the result is 1.
strncmp-short : (s : List ℕ) (n : ℕ) → All IsChar s → length s < n → strncmp s s n ≡ pos 1
unfolding strncmp
strncmp-short s zero hs h = absurd (omega arith)
strncmp-short [] (suc n) hs h = refl
strncmp-short (a ∷ s) (suc n) hs h =
    rw (ne→== a 0 hs.0.0, eq→== a a refl) (strncmp-short s n hs.1 (omega arith))
