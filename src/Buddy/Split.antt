-- ===== src/Buddy/Split.antt =====
-- Splitting a free block keeps the invariant of the allocator.
use adelaideos.Common.{
  ℕ, suc, ◌+◌, ◌*◌, ◌^◌, ◌%◌, ◌≤◌, ◌<◌, ◌≡◌, ◌≢◌, refl, sym, ap, subst, ◌∙◌, List, [], ◌∷◌, All,
  Bool, true, false, not, update, update_self, update-ne, inl, done, assert, ◌>>=◌, ◌>>◌,
  assert-pass, >>=-done, arith,
}
use adelaideos.Buddy.{
  BlockInfo, MemArea, get_sizem, is_used, set_sizem, set_used, add_to_freelist, put_halves,
}
use adelaideos.Buddy.FreeList.{SameBlocks}
use adelaideos.Buddy.Tiles.{granules, granules-pos}
use adelaideos.Buddy.Halves.{half_free, split-AreTiles}
use adelaideos.Buddy.Entries.{IsEntry, Hold, change-Hold, taken-Hold}
use adelaideos.Buddy.Heap.{IsHeap, write, add-IsHeap, offset-index}

-- The macros at the offset of granule `i`.
pub set_sizem-block :
    (ma : MemArea) (i s : ℕ)
    → s ≤ 31
    → set_sizem ma (i * 2 ^ ma.lower) s
      ≡ write ma i (record { sizem = s; used = (ma.blocks i).used })
set_sizem-block ma i s small =
    let fits : s % 2 ^ 7 ≡ s = omega arith in
    ap (λ k. write ma k (record { sizem = s % 2 ^ 7; used = (ma.blocks k).used }))
      (offset-index ma i)
    ∙ ap (λ z. write ma i (record { sizem = z; used = (ma.blocks i).used })) fits

pub set_used-block :
    (ma : MemArea) (i : ℕ) (u : Bool)
    → set_used ma (i * 2 ^ ma.lower) u
      ≡ write ma i (record { sizem = (ma.blocks i).sizem; used = u })
set_used-block ma i u =
    ap (λ k. write ma k (record { sizem = (ma.blocks k).sizem; used = u })) (offset-index ma i)

pub is_used-block : (ma : MemArea) (i : ℕ) → is_used ma (i * 2 ^ ma.lower) ≡ (ma.blocks i).used
is_used-block ma i = ap (λ k. (ma.blocks k).used) (offset-index ma i)

pub get_sizem-block : (ma : MemArea) (i : ℕ) → get_sizem ma (i * 2 ^ ma.lower) ≡ (ma.blocks i).sizem
get_sizem-block ma i = ap (λ k. (ma.blocks k).sizem) (offset-index ma i)

-- The blocks in use, and the area, are the same in both.
pub record SameUsed (ma ma' : MemArea) : Type 0 where
  pub lower : ma'.lower ≡ ma.lower
  pub upper : ma'.upper ≡ ma.upper
  pub mem : ma'.mem ≡ ma.mem
  pub kept : (k : ℕ) → (ma.blocks k).used ≡ true → ma'.blocks k ≡ ma.blocks k
  pub fresh : (k : ℕ) → (ma'.blocks k).used ≡ true → (ma.blocks k).used ≡ true

pub SameUsed-blocks : (ma ma' : MemArea) → SameBlocks ma ma' → SameUsed ma ma'
SameUsed-blocks ma ma' s = record {
  lower = s.lower;
  upper = s.upper;
  mem = s.mem;
  kept = λ k _. ap (λ b. b k) s.blocks;
  fresh = λ k u. sym (ap (λ b. (b k).used) s.blocks) ∙ u;
}

pub SameUsed-refl : (ma : MemArea) → SameUsed ma ma
SameUsed-refl ma = record {
  lower = refl;
  upper = refl;
  mem = refl;
  kept = λ _ _. refl;
  fresh = λ _ u. u;
}

pub SameUsed-trans : (a b c : MemArea) → SameUsed a b → SameUsed b c → SameUsed a c
SameUsed-trans a b c p q = record {
  lower = q.lower ∙ p.lower;
  upper = q.upper ∙ p.upper;
  mem = q.mem ∙ p.mem;
  kept = λ k u. q.kept k (ap (λ z. z.used) (p.kept k u) ∙ u) ∙ p.kept k u;
  fresh = λ k u. p.fresh k (q.fresh k u);
}

-- The first block of a list has an entry.
pub first-IsEntry :
    (ma : MemArea) (free : ℕ → List ℕ) (m x : ℕ) (xs : List ℕ)
    → IsHeap ma free []
    → free m ≡ x ∷ xs
    → IsEntry ma.lower ma.blocks [] m x
first-IsEntry ma free m x xs h e =
    (subst (All (IsEntry ma.lower ma.blocks [] m)) e (h.hold.sound m)).0

-- Both halves in hand are put into their list.
pub put_halves-IsHeap :
    (ma : MemArea) (free : ℕ → List ℕ) (m i j : ℕ)
    → IsHeap ma free (j ∷ i ∷ [])
    → 0 < m
    → i ≢ j
    → ma.blocks i ≡ record { sizem = m; used = false }
    → ma.blocks j ≡ record { sizem = m; used = false }
    → (ma' : MemArea) × (free' : ℕ → List ℕ) × (ys : List ℕ) × (put_halves ma m
          (i * 2 ^ ma.lower)
          (j * 2 ^ ma.lower)
        ≡ done ma')
      × IsHeap ma' free' []
      × SameBlocks ma ma'
      × (free' m ≡ i * 2 ^ ma.lower ∷ ys)
unfolding put_halves
put_halves-IsHeap ma free m i j h pos n ei ej =
    let x = i * 2 ^ ma.lower in
    let y = j * 2 ^ ma.lower in
    let (ma1, run1, h1, same1) =
      add-IsHeap ma free (i ∷ []) m j h (ap (λ b. b.sizem) ej) (ap (λ b. b.used) ej) pos
        ((λ e. n (sym e)), tt) in
    let ei1 = ap (λ b. b i) same1.blocks ∙ ei in
    let free1 = update free m (y ∷ free m) in
    let (ma2, run2, h2, same2) =
      add-IsHeap ma1 free1 [] m i h1 (ap (λ b. b.sizem) ei1) (ap (λ b. b.used) ei1) pos tt in
    let x1 : i * 2 ^ ma1.lower ≡ x = ap (λ l. i * 2 ^ l) same1.lower in
    let idle_i = ap not (is_used-block ma i ∙ ap (λ b. b.used) ei) in
    let idle_j = ap not (is_used-block ma j ∙ ap (λ b. b.used) ej) in
    let file = λ (s : MemArea). add_to_freelist s m x in
    (
      ma2,
      update free1 m (i * 2 ^ ma1.lower ∷ free1 m),
      free1 m,
      assert-pass (not (is_used ma x))
            (assert (not (is_used ma y)) >> (add_to_freelist ma m y >>= file)) idle_i
          ∙ assert-pass (not (is_used ma y)) (add_to_freelist ma m y >>= file) idle_j
          ∙ >>=-done (add_to_freelist ma m y) file ma1 run1
          ∙ ap (λ z. add_to_freelist ma1 m z) (sym x1)
          ∙ run2,
      h2,
      record {
        lower = same2.lower ∙ same1.lower;
        upper = same2.upper ∙ same1.upper;
        mem = same2.mem ∙ same1.mem;
        blocks = same2.blocks ∙ same1.blocks;
      },
      update_self free1 m (i * 2 ^ ma1.lower ∷ free1 m) ∙ ap (λ z. z ∷ free1 m) x1,
    )

-- A block in hand is marked as two, the second one with an entry that was no block.
cut-Hold :
    (lower : ℕ) (s : ℕ → BlockInfo) (free : ℕ → List ℕ) (i j : ℕ) (a b : BlockInfo)
    → Hold lower s free (i ∷ [])
    → i ≢ j
    → (s j).sizem ≡ 0
    → Hold lower (update (update s i a) j b) free (j ∷ i ∷ [])
cut-Hold lower s free i j a b h n z =
    let none : (update s i a j).sizem ≡ 0 = rw (update-ne s i j a n) z in
    change-Hold lower (update s i a) free (i ∷ []) j b (
      taken-Hold lower (update s i a) free (i ∷ []) j (change-Hold lower s free [] i a h)
        (inl none))

-- The mark of a block in hand, of size 2 ^ (m + 1), and of its second half.
pub cut-IsHeap :
    (ma : MemArea) (free : ℕ → List ℕ) (m i : ℕ)
    → IsHeap ma free (i ∷ [])
    → (ma.blocks i).sizem ≡ suc m
    → ma.lower ≤ m
    → (a b : BlockInfo) → a.sizem ≡ m
    → b.sizem ≡ m
    → IsHeap
        (write (write ma i a) (i + granules ma.lower m) b)
        free
        ((i + granules ma.lower m) ∷ i ∷ [])
cut-IsHeap ma free m i h size above a b ea eb =
    let j = i + granules ma.lower m in
    let pos = h.granule in
    let empty_half = half_free ma.lower ma.upper ma.blocks i m h.tiles size above in
    record {
      lists = record { chain = h.lists.chain; apart = h.lists.apart };
      tiles =
          split-AreTiles ma.lower ma.upper ma.blocks i m h.tiles size above a b ea eb (omega arith);
      hold =
          cut-Hold ma.lower ma.blocks free i j a b h.hold
            (λ e. omega (arith, e, granules-pos ma.lower m)) empty_half;
      granule = h.granule;
      ordered = h.ordered;
      short = h.short;
    }
