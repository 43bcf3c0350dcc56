-- ===== src/Buddy/Join.antt =====
-- Two halves of a block become one.
use adelaideos.Common.{
  ℕ, suc, ◌+◌, ◌*◌, ◌^◌, ◌≤◌, ◌<◌, ◌≡◌, ◌≢◌, refl, ap, ◌∙◌, List, [], ◌∷◌, false, update,
  update_self, update-ne, inl, arith,
}
use adelaideos.Buddy.{BlockInfo, MemArea, set_sizem}
use adelaideos.Buddy.Tiles.{granules, IsPlace, granules-suc}
use adelaideos.Buddy.Halves.{merge-AreTiles}
use adelaideos.Buddy.Entries.{Hold, change-Hold, release_taken, swap-Hold}
use adelaideos.Buddy.Heap.{IsHeap, write}
use adelaideos.Buddy.Split.{set_sizem-block}
use adelaideos.Buddy.Alloc.{free_block}

pub swap-IsHeap :
    (ma : MemArea) (free : ℕ → List ℕ) (i j : ℕ)
    → IsHeap ma free (i ∷ j ∷ [])
    → IsHeap ma free (j ∷ i ∷ [])
swap-IsHeap ma free i j h = record {
  lists = h.lists;
  tiles = h.tiles;
  hold = swap-Hold ma.lower ma.blocks free [] i j h.hold;
  granule = h.granule;
  ordered = h.ordered;
  short = h.short;
}

-- Both in hand: one gets the size of both, and the other one none.
join-Hold :
    (lower : ℕ) (s : ℕ → BlockInfo) (free : ℕ → List ℕ) (i j : ℕ) (a b : BlockInfo)
    → Hold lower s free (i ∷ j ∷ [])
    → b.sizem ≡ 0
    → Hold lower (update (update s i a) j b) free (i ∷ [])
join-Hold lower s free i j a b h z =
    let first = update s i a in
    let both = swap-Hold lower first free [] i j (change-Hold lower s free (j ∷ []) i a h) in
    let marked = change-Hold lower first free (i ∷ []) j b both in
    release_taken lower (update first j b) free (i ∷ []) j marked
      (inl (ap (λ v. v.sizem) (update_self first j b) ∙ z))

-- The place of a block whose second half is a block.
whole-IsPlace :
    (lower upper l m q : ℕ)
    → l ≡ q * granules lower (suc m)
    → lower ≤ m
    → m < upper
    → IsPlace lower upper (l + granules lower m) m
    → IsPlace lower upper l (suc m)
whole-IsPlace lower upper l m q aligned above below half = record {
  above = omega arith;
  below = omega arith;
  number = q;
  aligned = aligned;
  within = omega (arith, half.within, granules-suc lower m above);
}

pub join-IsHeap :
    (ma : MemArea) (free : ℕ → List ℕ) (l m q : ℕ)
    → IsHeap ma free (l ∷ (l + granules ma.lower m) ∷ [])
    → (ma.blocks l).sizem ≡ m
    → (ma.blocks (l + granules ma.lower m)).sizem ≡ m
    → ma.lower ≤ m
    → m < ma.upper
    → l ≡ q * granules ma.lower (suc m)
    → IsHeap
        (write (write ma l (free_block (suc m))) (l + granules ma.lower m) (free_block 0))
        free
        (l ∷ [])
join-IsHeap ma free l m q h low high above below aligned =
    let j = l + granules ma.lower m in
    let pos = h.granule in
    let half : IsPlace ma.lower ma.upper j m = rw high at (h.tiles.place j (omega (arith, high))) in
    record {
      lists = record { chain = h.lists.chain; apart = h.lists.apart };
      tiles =
          merge-AreTiles ma.lower ma.upper ma.blocks l m h.tiles low high (omega arith)
            (whole-IsPlace ma.lower ma.upper l m q aligned above below half) above
            (free_block (suc m)) (free_block 0) refl refl refl;
      hold = join-Hold ma.lower ma.blocks free l j (free_block (suc m)) (free_block 0) h.hold refl;
      granule = h.granule;
      ordered = h.ordered;
      short = h.short;
    }

-- The two calls of `set_sizem`.
pub join_marks :
    (ma : MemArea) (l j m : ℕ)
    → l ≢ j
    → suc m ≤ 31
    → (ma.blocks l).used ≡ false
    → (ma.blocks j).used ≡ false
    → set_sizem (set_sizem ma (l * 2 ^ ma.lower) (m + 1)) (j * 2 ^ ma.lower) 0
      ≡ write (write ma l (free_block (suc m))) j (free_block 0)
join_marks ma l j m n small idle_l idle_j =
    let next : m + 1 ≡ suc m = omega arith in
    let a = free_block (suc m) in
    let first : set_sizem ma (l * 2 ^ ma.lower) (m + 1) ≡ write ma l a =
      ap (set_sizem ma (l * 2 ^ ma.lower)) next
      ∙ set_sizem-block ma l (suc m) small
      ∙ ap (λ u. write ma l (record { sizem = suc m; used = u })) idle_l in
    ap (λ s. set_sizem s (j * 2 ^ ma.lower) 0) first
    ∙ set_sizem-block (write ma l a) j 0 (omega arith)
    ∙ ap (λ u. write (write ma l a) j (record { sizem = 0; used = u }))
        (ap (λ b. b.used) (update-ne ma.blocks l j a n) ∙ idle_j)
