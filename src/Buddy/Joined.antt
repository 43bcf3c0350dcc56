-- ===== src/Buddy/Joined.antt =====
-- The state at the end of a round of the loop that merges.
use adelaideos.Common.{
  ℕ, suc, ◌+◌, ◌*◌, ◌^◌, ◌≤◌, ◌<◌, ◌≡◌, ◌≢◌, sym, ap, subst, ◌∙◌, List, [], ◌∷◌, false, update,
  update_self, update-ne, arith,
}
use adelaideos.Buddy.{MemArea, set_sizem}
use adelaideos.Buddy.FreeList.{SameBlocks}
use adelaideos.Buddy.Tiles.{granules, granules-pos}
use adelaideos.Buddy.Heap.{IsHeap, write}
use adelaideos.Buddy.Split.{SameUsed, SameUsed-blocks, SameUsed-trans}
use adelaideos.Buddy.Alloc.{free_block, write-SameUsed}
use adelaideos.Buddy.Join.{join-IsHeap, join_marks}

-- The blocks after the merge, when the lower half is `l`.
pub record Joined (ma ma' : MemArea) (m l : ℕ) : Type 0 where
  pub free : ℕ → List ℕ
  pub number : ℕ
  pub heap : IsHeap ma' free (l ∷ [])
  pub size : (ma'.blocks l).sizem ≡ suc m
  pub idle : (ma'.blocks l).used ≡ false
  pub aligned : l ≡ number * granules ma'.lower (suc m)
  pub same : SameUsed ma ma'

-- The end of a round, with both halves in hand.
join-Joined :
    (ma : MemArea) (free : ℕ → List ℕ) (l m q : ℕ)
    → IsHeap ma free (l ∷ (l + granules ma.lower m) ∷ [])
    → (ma.blocks l).sizem ≡ m
    → (ma.blocks l).used ≡ false
    → (ma.blocks (l + granules ma.lower m)).sizem ≡ m
    → (ma.blocks (l + granules ma.lower m)).used ≡ false
    → ma.lower ≤ m
    → m < ma.upper
    → l ≡ q * granules ma.lower (suc m)
    → (ma' : MemArea) × (set_sizem
          (set_sizem ma (l * 2 ^ ma.lower) (m + 1))
          ((l + granules ma.lower m) * 2 ^ ma.lower)
          0
        ≡ ma')
      × Joined ma ma' m l
join-Joined ma free l m q h low idle_l high idle_j above below aligned =
    let j = l + granules ma.lower m in
    let g = granules-pos ma.lower m in
    let n : l ≢ j = (λ e. omega (arith, e, g)) in
    let limit = h.short in
    let a = free_block (suc m) in
    let here : (write (write ma l a) j (free_block 0)).blocks l ≡ a =
      update-ne (update ma.blocks l a) j l (free_block 0) (λ e. n (sym e))
      ∙ update_self ma.blocks l a in
    (
      write (write ma l a) j (free_block 0),
      join_marks ma l j m n (omega (arith, limit)) idle_l idle_j,
      record {
        free = free;
        number = q;
        heap = join-IsHeap ma free l m q h low high above below aligned;
        size = ap (λ b. b.sizem) here;
        idle = ap (λ b. b.used) here;
        aligned = aligned;
        same = write-SameUsed ma l j (suc m) 0 idle_l idle_j;
      },
    )

-- The end of a round, in the terms of the state before it.
pub finish :
    (ma ma1 : MemArea) (free : ℕ → List ℕ) (l h m q : ℕ)
    → SameBlocks ma ma1
    → h ≡ l + granules ma.lower m
    → IsHeap ma1 free (l ∷ h ∷ [])
    → (ma.blocks l).sizem ≡ m
    → (ma.blocks l).used ≡ false
    → (ma.blocks h).sizem ≡ m
    → (ma.blocks h).used ≡ false
    → ma.lower ≤ m
    → m < ma.upper
    → l ≡ q * granules ma.lower (suc m)
    → (ma' : MemArea) × (set_sizem (set_sizem ma1 (l * 2 ^ ma.lower) (m + 1)) (h * 2 ^ ma.lower) 0
        ≡ ma')
      × Joined ma ma' m l
finish ma ma1 free l h m q same at_h heap low idle_l high idle_h above below aligned =
    let at1 : h ≡ l + granules ma1.lower m = at_h ∙ ap (λ lo. l + granules lo m) (sym same.lower) in
    let blocks1 = λ (k : ℕ). ap (λ s. s k) same.blocks in
    let high1 = ap (λ k. (ma1.blocks k).sizem) (sym at1) ∙ ap (λ b. b.sizem) (blocks1 h) ∙ high in
    let idle1 = ap (λ k. (ma1.blocks k).used) (sym at1) ∙ ap (λ b. b.used) (blocks1 h) ∙ idle_h in
    let (ma', run, joined) =
      join-Joined ma1 free l m q (subst (λ k. IsHeap ma1 free (l ∷ k ∷ [])) at1 heap)
        (ap (λ b. b.sizem) (blocks1 l) ∙ low) (ap (λ b. b.used) (blocks1 l) ∙ idle_l) high1 idle1
        (subst (λ lo. lo ≤ m) (sym same.lower) above) (subst (λ up. m < up) (sym same.upper) below)
        (aligned ∙ ap (λ lo. q * granules lo (suc m)) (sym same.lower)) in
    let marks = λ (lo k : ℕ). set_sizem (set_sizem ma1 (l * 2 ^ lo) (m + 1)) (k * 2 ^ lo) 0 in
    (
      ma',
      ap (λ lo. marks lo h) (sym same.lower) ∙ ap (marks ma1.lower) at1 ∙ run,
      record {
        free = joined.free;
        number = joined.number;
        heap = joined.heap;
        size = joined.size;
        idle = joined.idle;
        aligned = joined.aligned;
        same = SameUsed-trans ma ma1 ma' (SameUsed-blocks ma ma1 same) joined.same;
      },
    )
