-- ===== src/Buddy/Entries.antt =====
-- The free lists hold exactly the free blocks, but for the blocks that are in hand.
use native.Mathlib.Nat.{one-le-pow}
use adelaideos.Common.{
  ℕ, ◌*◌, ◌/◌, ◌^◌, ◌≤◌, ◌<◌, ◌≡◌, ◌≢◌, refl, sym, ap, subst, ◌∙◌, List, [], ◌∷◌, ◌++◌, All,
  All-map, All-map₂, All-drop, true, false, update, update_self, update-ne, eq_or_ne, ◌⊎◌, inl, inr,
  arith,
}
use adelaideos.Buddy.{BlockInfo}

-- A list with `x` in it somewhere.
abbrev pub In : ℕ → List ℕ → Type 0
In x l = (xs : List ℕ) × (ys : List ℕ) × (l ≡ xs ++ x ∷ ys)

In-cons : (x y : ℕ) (l : List ℕ) → In x l → In x (y ∷ l)
In-cons x y l h = let (xs, ys, e) = h in (y ∷ xs, ys, ap (λ r. y ∷ r) e)

cons_parts : (a b : ℕ) (xs ys : List ℕ) → a ∷ xs ≡ b ∷ ys → (a ≡ b) × (xs ≡ ys)
cons_parts a b xs ys e = (cc, cc)

-- Taking one element out leaves the others in.
In-drop : (x y : ℕ) (xs ys us vs : List ℕ) → xs ++ x ∷ ys ≡ us ++ y ∷ vs → x ≢ y → In x (us ++ vs)
In-drop x y [] ys [] vs e n = absurd (n (cons_parts x y ys vs e).0)
In-drop x y [] ys (u ∷ us) vs e n =
    ([], us ++ vs, ap (λ a. a ∷ us ++ vs) (sym (cons_parts x u ys (us ++ y ∷ vs) e).0))
In-drop x y (w ∷ ws) ys [] vs e n = (ws, ys, sym (cons_parts w y (ws ++ x ∷ ys) vs e).1)
In-drop x y (w ∷ ws) ys (u ∷ us) vs e n =
    In-cons x u (us ++ vs)
      (In-drop x y ws ys us vs (cons_parts w u (ws ++ x ∷ ys) (us ++ y ∷ vs) e).1 n)

-- Offsets of different granules are different.
pub offset-ne : (lower i j : ℕ) → i ≢ j → i * 2 ^ lower ≢ j * 2 ^ lower
offset-ne lower i j n e =
    let p : 1 ≤ 2 ^ lower = one-le-pow lower 2 (omega arith) in
    n (sym (quotient i (2 ^ lower) p) ∙ ap (λ a. a / 2 ^ lower) e ∙ quotient j (2 ^ lower) p)
  where
    quotient : (q d : ℕ) → 1 ≤ d → q * d / d ≡ q
    quotient q d h = grind arith

-- An element `b` of a list of blocks of size 2 ^ m: the offset of a free block that is not in hand.
abbrev pub IsEntry : ℕ → (ℕ → BlockInfo) → List ℕ → ℕ → ℕ → Type 0
IsEntry lower s out m b =
    (i : ℕ) × (b ≡ i * 2 ^ lower)
    × ((s i).sizem ≡ m)
    × ((s i).used ≡ false)
    × (0 < m)
    × All (λ y. i ≢ y) out

pub IsEntry-block :
    (lower : ℕ) (s : ℕ → BlockInfo) (out : List ℕ) (i m : ℕ)
    → IsEntry lower s out m (i * 2 ^ lower)
    → ((s i).sizem ≡ m) × ((s i).used ≡ false)
IsEntry-block lower s out i m h =
    let (j, e, size, idle, pos, others) = h in
    elim (eq_or_ne i j) [ inl f ↦ rw f (size, idle) | inr n ↦ absurd (offset-ne lower i j n e) ]

pub record Hold (lower : ℕ) (s : ℕ → BlockInfo) (free : ℕ → List ℕ) (out : List ℕ) : Type 0 where
  pub sound : (m : ℕ) → All (IsEntry lower s out m) (free m)
  pub complete :
      (i : ℕ)
      → 0 < (s i).sizem
      → (s i).used ≡ false
      → All (λ y. i ≢ y) out
      → In (i * 2 ^ lower) (free (s i).sizem)

-- An entry that is not a free block.
abbrev pub IsTaken : BlockInfo → Type 0
IsTaken v = (v.sizem ≡ 0) ⊎ (v.used ≡ true)

module _ (lower : ℕ) (s : ℕ → BlockInfo) (free : ℕ → List ℕ) (out : List ℕ) where
  -- A block is taken out of its list.
  pub take_out-Hold :
      (i m : ℕ) (xs ys : List ℕ)
      → Hold lower s free out
      → free m ≡ xs ++ i * 2 ^ lower ∷ ys
      → All (λ y. i * 2 ^ lower ≢ y) (xs ++ ys)
      → Hold lower s (update free m (xs ++ ys)) (i ∷ out)
  take_out-Hold i m xs ys h e apart =
      let x = i * 2 ^ lower in
      let here =
        All-drop (IsEntry lower s out m) xs ys x
          (subst (All (IsEntry lower s out m)) e (h.sound m)) in
      let size_here = (IsEntry-block lower s out i m here.0).0 in
      record {
        sound = λ n. elim (eq_or_ne m n) [
          | inl f ↦
              rw (← f, update_self free m (xs ++ ys))
                (All-map₂ (λ y. x ≢ y) (IsEntry lower s out m) (IsEntry lower s (i ∷ out) m)
                  (xs ++ ys)
                  (λ y d p.
                    let (j, ey, size, idle, pos, others) = p in
                    (j, ey, size, idle, pos, ((λ z. d (sym (rw z at ey))), others)))
                  apart here.1)
          | inr d ↦ rw (update-ne free m n (xs ++ ys) d) (
              All-map (IsEntry lower s out n) (IsEntry lower s (i ∷ out) n) (free n)
                (λ y p.
                  let (j, ey, size, idle, pos, others) = p in
                  (
                    j,
                    ey,
                    size,
                    idle,
                    pos,
                    ((λ z. d (sym size_here ∙ ap (λ a. (s a).sizem) (sym z) ∙ size)), others),
                  ))
                (h.sound n))
        ];
        complete = λ j live idle others.
            let (us, vs, f) = h.complete j live idle others.1 in
            elim (eq_or_ne m (s j).sizem) [
              | inl same ↦
                  rw (← same, update_self free m (xs ++ ys))
                    (In-drop (j * 2 ^ lower) x us vs xs ys (sym f ∙ ap free (sym same) ∙ e)
                      (offset-ne lower j i others.0))
              | inr d ↦ rw (update-ne free m (s j).sizem (xs ++ ys) d) (us, vs, f)
            ];
      }

  -- A free block in hand is put into its list.
  pub put_in-Hold :
      (i m : ℕ)
      → Hold lower s free (i ∷ out)
      → (s i).sizem ≡ m
      → (s i).used ≡ false
      → 0 < m
      → All (λ y. i ≢ y) out
      → Hold lower s (update free m (i * 2 ^ lower ∷ free m)) out
  put_in-Hold i m h size idle pos fresh =
      let x = i * 2 ^ lower in
      let keep : (n : ℕ) → All (IsEntry lower s out n) (free n) = λ n.
        All-map (IsEntry lower s (i ∷ out) n) (IsEntry lower s out n) (free n)
          (λ y p. (p.0, p.1, p.2, p.3, p.4, p.5.1)) (h.sound n) in
      record {
        sound = λ n. elim (eq_or_ne m n) [
          | inl f ↦
              rw (← f, update_self free m (x ∷ free m)) ((i, refl, size, idle, pos, fresh), keep m)
          | inr d ↦ rw (update-ne free m n (x ∷ free m) d) (keep n)
        ];
        complete = λ j live free_j others. elim (eq_or_ne i j) [
          | inl f ↦ rw (← f, size, update_self free m (x ∷ free m)) ([], free m, refl)
          | inr d ↦
              let old = h.complete j live free_j ((λ z. d (sym z)), others) in
              elim (eq_or_ne m (s j).sizem) [
                | inl same ↦
                    rw (← same, update_self free m (x ∷ free m))
                      (In-cons (j * 2 ^ lower) x (free m) (rw (← same) at old))
                | inr ne ↦ rw (update-ne free m (s j).sizem (x ∷ free m) ne) old
              ]
        ];
      }

  -- What is recorded of a block in hand may be changed.
  pub change-Hold :
      (i : ℕ) (v : BlockInfo)
      → Hold lower s free (i ∷ out)
      → Hold lower (update s i v) free (i ∷ out)
  change-Hold i v h = record {
    sound = λ n.
        All-map (IsEntry lower s (i ∷ out) n) (IsEntry lower (update s i v) (i ∷ out) n) (free n)
          (λ y p. (
            p.0,
            p.1,
            rw (update-ne s i p.0 v (λ z. p.5.0 (sym z))) p.2,
            rw (update-ne s i p.0 v (λ z. p.5.0 (sym z))) p.3,
            p.4,
            p.5,
          ))
          (h.sound n);
    complete = λ j live idle others.
        let same = update-ne s i j v (λ z. others.0 (sym z)) in
        let old = h.complete j (rw same at live) (rw same at idle) others in rw same old;
  }

  -- An entry that is not a free block is in no list.
  pub taken-Hold : (i : ℕ) → Hold lower s free out → IsTaken (s i) → Hold lower s free (i ∷ out)
  taken-Hold i h taken = record {
    sound = λ n.
        All-map (IsEntry lower s out n) (IsEntry lower s (i ∷ out) n) (free n)
          (λ y p. (
            p.0,
            p.1,
            p.2,
            p.3,
            p.4,
            (
              (λ z. elim taken [
                | inl zero_size ↦ omega (arith, p.2, p.4, ap (λ a. (s a).sizem) z, zero_size)
                | inr used ↦ cc (p.3, used, ap (λ a. (s a).used) z)
              ]),
              p.5,
            ),
          ))
          (h.sound n);
    complete = λ j live idle others. h.complete j live idle others.1;
  }

  pub release_taken : (i : ℕ) → Hold lower s free (i ∷ out) → IsTaken (s i) → Hold lower s free out
  release_taken i h taken = record {
    sound = λ n.
        All-map (IsEntry lower s (i ∷ out) n) (IsEntry lower s out n) (free n)
          (λ y p. (p.0, p.1, p.2, p.3, p.4, p.5.1)) (h.sound n);
    complete = λ j live idle others. h.complete j live idle (
      (λ z. elim taken [
        | inl zero_size ↦ omega (arith, live, ap (λ a. (s a).sizem) z, zero_size)
        | inr used ↦ cc (idle, used, ap (λ a. (s a).used) z)
      ]),
      others,
    );
  }

  pub swap-Hold : (i j : ℕ) → Hold lower s free (i ∷ j ∷ out) → Hold lower s free (j ∷ i ∷ out)
  swap-Hold i j h = record {
    sound = λ n.
        All-map (IsEntry lower s (i ∷ j ∷ out) n) (IsEntry lower s (j ∷ i ∷ out) n) (free n)
          (λ y p. (p.0, p.1, p.2, p.3, p.4, (p.5.1.0, (p.5.0, p.5.1.1)))) (h.sound n);
    complete = λ k live idle others. h.complete k live idle (others.1.0, (others.0, others.1.1));
  }
