-- ===== src/Buddy/Merge.antt =====
-- A round of the loop that merges a free block with its buddy.
use native.Mathlib.Nat.{one-le-pow}
use adelaideos.Common.{
  ℕ, ◌+◌, ◌-◌, ◌*◌, ◌/◌, ◌%◌, ◌^◌, ◌≤◌, ◌<◌, ◌≡◌, ◌≢◌, refl, sym, ap, subst, ◌∙◌, List, [], ◌∷◌,
  ◌++◌, true, false, update, eq_or_ne, eq→==, ne→==, ltb, le→ltb, lt→ltb, ◌⊎◌, inl, inr,
  if◌then◌else◌, Run, done, >>=-done, arith,
}
use adelaideos.Buddy.{MemArea, set_sizem, remove_from_freelist, merge}
use adelaideos.Buddy.Sizes.{buddy_number}
use adelaideos.Buddy.Tiles.{granules, granules-pos, granules-suc}
use adelaideos.Buddy.Heap.{IsHeap, remove-IsHeap, add_mul, mul_mono}
use adelaideos.Buddy.Joined.{Joined, finish}
use adelaideos.Buddy.Join.{swap-IsHeap}

even_pair : (q g : ℕ) → q % 2 ≡ 0 → q * g ≡ q / 2 * (g + g)
even_pair q g e =
    let twice : q ≡ q / 2 + q / 2 = omega arith in ap (λ z. z * g) twice ∙ spread (q / 2) g
  where
    spread : (a b : ℕ) → (a + a) * b ≡ a * (b + b)
    spread a b = grind arith

-- The halves `l`, `h` of a block, which are in one or the other order `i`, `j`.
halves_of :
    (i j g q : ℕ)
    → i ≡ q * g
    → j ≡ buddy_number q * g
    → (l : ℕ) × (h : ℕ) × (h ≡ l + g)
      × (l ≡ q / 2 * (g + g))
      × (((l ≡ i) × (h ≡ j)) ⊎ ((l ≡ j) × (h ≡ i)))
halves_of i j g q at_i at_j = elim (eq_or_ne (q % 2) 0) [
  | inl even ↦
      let b : buddy_number q ≡ q + 1 = rw (eq→== (q % 2) 0 even) refl in
      let next = one_more q g in
      (
        i,
        j,
        at_j ∙ ap (λ n. n * g) b ∙ omega (arith, next, at_i),
        at_i ∙ even_pair q g even,
        inl (refl, refl),
      )
  | inr odd ↦
      let b : buddy_number q ≡ q - 1 = rw (ne→== (q % 2) 0 odd) refl in
      let prev : q ≡ q - 1 + 1 = omega (arith, odd) in
      let next = one_more (q - 1) g in
      let half : (q - 1) / 2 ≡ q / 2 = omega (arith, odd) in
      let low = at_j ∙ ap (λ n. n * g) b in
      (
        j,
        i,
        at_i ∙ ap (λ n. n * g) prev ∙ omega (arith, next, low),
        low ∙ even_pair (q - 1) g (omega (arith, odd)) ∙ ap (λ n. n * (g + g)) half,
        inr (refl, refl),
      )
]
  where
    one_more : (n d : ℕ) → (n + 1) * d ≡ n * d + d
    one_more n d = grind arith

-- The round behind the removal of the buddy, at `y`, when the block is at `x`.
abbrev join_at : ℕ → MemArea → ℕ → ℕ → Run (MemArea × ℕ)
join_at m s l h = done (set_sizem (set_sizem s l (m + 1)) h 0, l)

in_order :
    (m : ℕ) (s : MemArea) (x y l h : ℕ)
    → l < h
    → ((l ≡ x) × (h ≡ y)) ⊎ ((l ≡ y) × (h ≡ x))
    → join_at m s (if ltb y x then y else x) (if ltb y x then x else y) ≡ join_at m s l h
in_order m s x y l h lt order = elim order [
  | inl (el, eh) ↦
      let cmp : ltb y x ≡ false = le→ltb y x (omega (arith, el, eh)) in
      ap (λ b. join_at m s (if b then y else x) (if b then x else y)) cmp
      ∙ ap (λ k. join_at m s k y) (sym el)
      ∙ ap (λ k. join_at m s l k) (sym eh)
  | inr (el, eh) ↦
      let cmp : ltb y x ≡ true = lt→ltb y x (omega (arith, el, eh)) in
      ap (λ b. join_at m s (if b then y else x) (if b then x else y)) cmp
      ∙ ap (λ k. join_at m s k x) (sym el)
      ∙ ap (λ k. join_at m s l k) (sym eh)
]

one_of :
    (A : ℕ → Type 0) (i j l h : ℕ)
    → ((l ≡ i) × (h ≡ j)) ⊎ ((l ≡ j) × (h ≡ i))
    → A i
    → A j
    → A l × A h
one_of A i j l h order at_i at_j = elim order [
  | inl (el, eh) ↦ (subst A (sym el) at_i, subst A (sym eh) at_j)
  | inr (el, eh) ↦ (subst A (sym el) at_j, subst A (sym eh) at_i)
]

both_IsHeap :
    (ma : MemArea) (free : ℕ → List ℕ) (i j l h : ℕ)
    → ((l ≡ i) × (h ≡ j)) ⊎ ((l ≡ j) × (h ≡ i))
    → IsHeap ma free (j ∷ i ∷ [])
    → IsHeap ma free (l ∷ h ∷ [])
both_IsHeap ma free i j l h order heap = elim order [
  | inl (el, eh) ↦ rw (el, eh) (swap-IsHeap ma free j i heap)
  | inr (el, eh) ↦ rw (el, eh) heap
]

offsets_ordered : (lower l h g : ℕ) → h ≡ l + g → 1 ≤ g → l * 2 ^ lower < h * 2 ^ lower
offsets_ordered lower l h g e pos =
    let p = one-le-pow lower 2 (omega arith) in
    omega (arith, add_mul l 1 (2 ^ lower), mul_mono (l + 1) h (2 ^ lower) (omega (arith, e)), p)

-- A round of the loop, for a free block in hand at granule `i` and its free buddy at `j`.
pub merge-Joined :
    (ma : MemArea) (free : ℕ → List ℕ) (m i j q : ℕ)
    → IsHeap ma free (i ∷ [])
    → (ma.blocks i).sizem ≡ m
    → (ma.blocks i).used ≡ false
    → (ma.blocks j).sizem ≡ m
    → (ma.blocks j).used ≡ false
    → ma.lower ≤ m
    → m < ma.upper
    → i ≡ q * granules ma.lower m
    → j ≡ buddy_number q * granules ma.lower m
    → (ma' : MemArea) × (l : ℕ) × (merge ma m (i * 2 ^ ma.lower) (j * 2 ^ ma.lower)
        ≡ done (ma', l * 2 ^ ma.lower))
      × Joined ma ma' m l
unfolding merge
merge-Joined ma free m i j q heap size_i idle_i size_j idle_j above below at_i at_j =
    let g = granules ma.lower m in
    let one = granules-pos ma.lower m in
    let (l, h, step, aligned, order) = halves_of i j g q at_i at_j in
    let n : j ≢ i = (λ e. elim order [
      | inl (el, eh) ↦ omega (arith, e, el, eh, step, one)
      | inr (el, eh) ↦ omega (arith, e, el, eh, step, one)
    ]) in
    let pos = heap.granule in
    let (us, vs, f) = heap.hold.complete j (omega (arith, size_j)) idle_j (n, tt) in
    let (ma1, run1, heap1, same) =
      remove-IsHeap ma free (i ∷ []) m j us vs heap (ap free (sym size_j) ∙ f) in
    let sizes = one_of (λ k. (ma.blocks k).sizem ≡ m) i j l h order size_i size_j in
    let marks = one_of (λ k. (ma.blocks k).used ≡ false) i j l h order idle_i idle_j in
    let free1 = update free m (us ++ vs) in
    let (ma', run2, joined) =
      finish ma ma1 free1 l h m (q / 2) same step (both_IsHeap ma1 free1 i j l h order heap1)
        sizes.0 marks.0 sizes.1 marks.1 above below
        (aligned ∙ ap (λ z. q / 2 * z) (sym (granules-suc ma.lower m above))) in
    let x = i * 2 ^ ma.lower in
    let y = j * 2 ^ ma.lower in
    let after : MemArea → Run (MemArea × ℕ) =
      λ s. join_at m s (if ltb y x then y else x) (if ltb y x then x else y) in
    let at_offsets =
      elim order
        as (λ _.
          ((l * 2 ^ ma.lower ≡ x) × (h * 2 ^ ma.lower ≡ y))
          ⊎ ((l * 2 ^ ma.lower ≡ y) × (h * 2 ^ ma.lower ≡ x))) [
            | inl (el, eh) ↦ inl (ap (λ k. k * 2 ^ ma.lower) el, ap (λ k. k * 2 ^ ma.lower) eh)
            | inr (el, eh) ↦ inr (ap (λ k. k * 2 ^ ma.lower) el, ap (λ k. k * 2 ^ ma.lower) eh)
          ] in
    (
      ma',
      l,
      >>=-done (remove_from_freelist ma m y) after ma1 run1
          ∙ in_order m ma1 x y (l * 2 ^ ma.lower) (h * 2 ^ ma.lower)
              (offsets_ordered ma.lower l h g step one) at_offsets
          ∙ ap (λ s. done (s, l * 2 ^ ma.lower)) run2,
      joined,
    )
