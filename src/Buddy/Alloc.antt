-- ===== src/Buddy/Alloc.antt =====
-- Splitting blocks until one has the size that is asked for.
use adelaideos.Common.{
  ℕ, zero, suc, ◌+◌, ◌*◌, ◌^◌, ◌≤◌, ◌≡◌, ◌≢◌, refl, sym, ap, subst, ◌∙◌, List, [], ◌∷◌, true, false,
  not, update, update_self, update-ne, eq_or_ne, eq→==, ◌==◌, inl, inr, done, assert, ◌>>=◌, ◌>>◌,
  assert-pass, >>=-done, arith,
}
use adelaideos.Buddy.{
  BlockInfo, MemArea, get_sizem, is_used, set_sizem, remove_from_freelist, put_halves, halve_block,
  split_block, split_loop,
}
use adelaideos.Buddy.FreeList.{Chain}
use adelaideos.Buddy.Tiles.{granules, granules-pos}
use adelaideos.Buddy.Halves.{half_free}
use adelaideos.Buddy.Entries.{IsEntry-block}
use adelaideos.Buddy.Heap.{IsHeap, write, remove-IsHeap, granules-bytes, add_mul}
use adelaideos.Buddy.Split.{
  set_sizem-block, is_used-block, get_sizem-block, SameUsed, SameUsed-blocks, SameUsed-trans,
  SameUsed-refl, first-IsEntry, put_halves-IsHeap, cut-IsHeap,
}

half_offset :
    (lower i m : ℕ) → lower ≤ m → i * 2 ^ lower + 2 ^ m ≡ (i + granules lower m) * 2 ^ lower
half_offset lower i m h =
    omega (arith, add_mul i (granules lower m) (2 ^ lower), granules-bytes lower m h)

abbrev pub free_block : ℕ → BlockInfo
free_block m = record { sizem = m; used = false }

used_before :
    (s : ℕ → BlockInfo) (i m k : ℕ) → (update s i (free_block m) k).used ≡ true → (s k).used ≡ true
used_before s i m k u = elim (eq_or_ne i k) [
  | inl e ↦
      let idle : (update s i (free_block m) k).used ≡ false =
        ap (λ z. (update s i (free_block m) z).used) (sym e)
        ∙ ap (λ b. b.used) (update_self s i (free_block m)) in
      cc (idle, u)
  | inr n ↦ sym (ap (λ b. b.used) (update-ne s i k (free_block m) n)) ∙ u
]

-- Two free entries in place of two that were not in use.
pub write-SameUsed :
    (ma : MemArea) (i j m n : ℕ)
    → (ma.blocks i).used ≡ false
    → (ma.blocks j).used ≡ false
    → SameUsed ma (write (write ma i (free_block m)) j (free_block n))
write-SameUsed ma i j m n ei ej = record {
  lower = refl;
  upper = refl;
  mem = refl;
  kept = λ k u.
      let ni : i ≢ k = (λ e. cc (ei, u, ap (λ z. (ma.blocks z).used) e)) in
      let nj : j ≢ k = (λ e. cc (ej, u, ap (λ z. (ma.blocks z).used) e)) in
      update-ne (update ma.blocks i (free_block m)) j k (free_block n) nj
      ∙ update-ne ma.blocks i k (free_block m) ni;
  fresh =
      λ k u. used_before ma.blocks i m k (used_before (update ma.blocks i (free_block m)) j n k u);
}

-- The second part of a round of the loop that splits.
mark_halves-IsHeap :
    (ma : MemArea) (free : ℕ → List ℕ) (m i : ℕ)
    → IsHeap ma free (i ∷ [])
    → (ma.blocks i).sizem ≡ suc m
    → (ma.blocks i).used ≡ false
    → ma.lower ≤ m
    → m ≤ 31
    → (x : ℕ) → x ≡ i * 2 ^ ma.lower
    → (ma' : MemArea) × (free' : ℕ → List ℕ) × (ys : List ℕ) × (put_halves
          (set_sizem (set_sizem ma x m) (x + 2 ^ m) m)
          m
          x
          (x + 2 ^ m)
        ≡ done ma')
      × IsHeap ma' free' []
      × SameUsed ma ma'
      × (free' m ≡ x ∷ ys)
mark_halves-IsHeap ma free m i h size idle above small x at_i =
    let j = i + granules ma.lower m in
    let z = half_free ma.lower ma.upper ma.blocks i m h.tiles size above in
    let idle_j = h.tiles.unused j z in
    let g = granules-pos ma.lower m in
    let n : i ≢ j = (λ e. omega (arith, e, g)) in
    let a = free_block m in
    let ma2 = write (write ma i a) j a in
    let pos = h.granule in
    let (ma', free', ys, run, h', same, first) =
      put_halves-IsHeap ma2 free m i j (cut-IsHeap ma free m i h size above a a refl refl)
        (omega arith) n
        (update-ne (update ma.blocks i a) j i a (λ e. n (sym e)) ∙ update_self ma.blocks i a)
        (update_self (update ma.blocks i a) j a) in
    let at_j : x + 2 ^ m ≡ j * 2 ^ ma.lower =
      ap (λ y. y + 2 ^ m) at_i ∙ half_offset ma.lower i m above in
    let first_mark : set_sizem ma x m ≡ write ma i a =
      ap (λ y. set_sizem ma y m) at_i
      ∙ set_sizem-block ma i m small
      ∙ ap (λ u. write ma i (record { sizem = m; used = u })) idle in
    let second_mark : set_sizem (write ma i a) (x + 2 ^ m) m ≡ ma2 =
      ap (λ y. set_sizem (write ma i a) y m) at_j
      ∙ set_sizem-block (write ma i a) j m small
      ∙ ap (λ u. write (write ma i a) j (record { sizem = m; used = u }))
          (ap (λ b. b.used) (update-ne ma.blocks i j a n) ∙ idle_j) in
    (
      ma',
      free',
      ys,
      ap (λ s. put_halves (set_sizem s (x + 2 ^ m) m) m x (x + 2 ^ m)) first_mark
          ∙ ap (λ s. put_halves s m x (x + 2 ^ m)) second_mark
          ∙ ap (λ y. put_halves ma2 m y (x + 2 ^ m)) at_i
          ∙ ap (λ y. put_halves ma2 m (i * 2 ^ ma.lower) y) at_j
          ∙ run,
      h',
      SameUsed-trans ma ma2 ma' (write-SameUsed ma i j m m idle idle_j)
          (SameUsed-blocks ma2 ma' same),
      first ∙ ap (λ y. y ∷ ys) (sym at_i),
    )

-- A round of the loop that splits: the first block of the list of size 2 ^ (m + 1) becomes the first
-- one of the list of half the size.
halve_block-IsHeap :
    (ma : MemArea) (free : ℕ → List ℕ) (m i : ℕ) (xs : List ℕ)
    → IsHeap ma free []
    → free (suc m) ≡ i * 2 ^ ma.lower ∷ xs
    → ma.lower ≤ m
    → m ≤ 31
    → (ma' : MemArea) × (free' : ℕ → List ℕ) × (ys : List ℕ) × (halve_block ma m (i * 2 ^ ma.lower)
        ≡ done ma')
      × IsHeap ma' free' []
      × SameUsed ma ma'
      × (free' m ≡ i * 2 ^ ma.lower ∷ ys)
unfolding halve_block
halve_block-IsHeap ma free m i xs h e above small =
    let x = i * 2 ^ ma.lower in
    let (size, idle) =
      IsEntry-block ma.lower ma.blocks [] i (suc m) (first-IsEntry ma free (suc m) x xs h e) in
    let (ma1, run1, h1, same1) = remove-IsHeap ma free [] (suc m) i [] xs h e in
    let (ma2, free2, ys, run2, h2, same2, first) =
      mark_halves-IsHeap ma1 (update free (suc m) xs) m i h1
        (ap (λ b. (b i).sizem) same1.blocks ∙ size) (ap (λ b. (b i).used) same1.blocks ∙ idle)
        (subst (λ l. l ≤ m) (sym same1.lower) above) small x
        (ap (λ l. i * 2 ^ l) (sym same1.lower)) in
    let after =
      λ (s : MemArea). put_halves (set_sizem (set_sizem s x m) (x + 2 ^ m) m) m x (x + 2 ^ m) in
    let rest = remove_from_freelist ma (suc m) x >>= after in
    (
      ma2,
      free2,
      ys,
      assert-pass (not (is_used ma x)) (assert (get_sizem ma x == suc m) >> rest)
            (ap not (is_used-block ma i ∙ idle))
          ∙ assert-pass (get_sizem ma x == suc m) rest
              (eq→== (get_sizem ma x) (suc m) (get_sizem-block ma i ∙ size))
          ∙ >>=-done (remove_from_freelist ma (suc m) x) after ma1 run1
          ∙ run2,
      h2,
      SameUsed-trans ma ma1 ma2 (SameUsed-blocks ma ma1 same1) same2,
      first,
    )

split_block-IsHeap :
    (ma : MemArea) (free : ℕ → List ℕ) (m x : ℕ) (xs : List ℕ)
    → IsHeap ma free []
    → free (suc m) ≡ x ∷ xs
    → ma.lower ≤ m
    → m ≤ 31
    → (ma' : MemArea) × (free' : ℕ → List ℕ) × (ys : List ℕ) × (split_block ma m ≡ done ma')
      × IsHeap ma' free' []
      × SameUsed ma ma'
      × (free' m ≡ x ∷ ys)
unfolding split_block
split_block-IsHeap ma free m x xs h e above small =
    let (i, at_i, size, idle, pos, others) = first-IsEntry ma free (suc m) x xs h e in
    let (ma', free', ys, run, h', same, first) =
      halve_block-IsHeap ma free m i xs h (e ∙ ap (λ y. y ∷ xs) at_i) above small in
    let head =
      (subst (λ ws. Chain ma.links (ma.freelist (suc m)) ws) e (h.lists.chain (suc m))).0 in
    (
      ma',
      free',
      ys,
      ap (halve_block ma m) (head ∙ at_i) ∙ run,
      h',
      same,
      first ∙ ap (λ y. y ∷ ys) (sym at_i),
    )

-- The loop that splits: `n` rounds turn a block of size 2 ^ (m + n) into one of size 2 ^ m.
pub split_loop-IsHeap :
    (n : ℕ) (ma : MemArea) (free : ℕ → List ℕ) (m x : ℕ) (xs : List ℕ)
    → IsHeap ma free []
    → free (m + n) ≡ x ∷ xs
    → ma.lower ≤ m
    → m + n ≤ 31
    → (ma' : MemArea) × (free' : ℕ → List ℕ) × (ys : List ℕ) × (split_loop n ma m ≡ done ma')
      × IsHeap ma' free' []
      × SameUsed ma ma'
      × (free' m ≡ x ∷ ys)
unfolding split_loop
split_loop-IsHeap zero ma free m x xs h e above small =
    let z : m ≡ m + 0 = omega arith in (ma, free, xs, refl, h, SameUsed-refl ma, ap free z ∙ e)
split_loop-IsHeap (suc n) ma free m x xs h e above small =
    let next : suc (m + n) ≡ m + suc n = omega arith in
    let (ma1, free1, ys, run1, h1, same1, first) =
      split_block-IsHeap ma free (m + n) x xs h (ap free next ∙ e) (omega arith) (omega arith) in
    let (ma2, free2, zs, run2, h2, same2, found) =
      split_loop-IsHeap n ma1 free1 m x ys h1 first (subst (λ l. l ≤ m) (sym same1.lower) above)
        (omega arith) in
    (
      ma2,
      free2,
      zs,
      >>=-done (split_block ma (m + n)) (λ s. split_loop n s m) ma1 run1 ∙ run2,
      h2,
      SameUsed-trans ma ma1 ma2 same1 same2,
      found,
    )
