-- ===== src/Buddy/Release.antt =====
-- Freeing a block in an area that keeps the invariant.
use native.Mathlib.Nat.{one-le-pow}
use adelaideos.Common.{
  ℕ, ◌+◌, ◌-◌, ◌*◌, ◌^◌, ◌<◌, ◌≡◌, ◌≢◌, refl, sym, ap, subst, ◌∙◌, List, [], ◌∷◌, Bool, true, false,
  ◌&&◌, some, update, update_self, update-ne, eq_or_ne, ltb, leb, le→leb, lt→ltb, inl, inr, Run,
  done, assert, assert-pass, ◌>>=◌, ◌>>◌, >>=-done, Bool-cases, arith,
}
use adelaideos.Buddy.{
  MemArea, get_sizem, is_used, set_used, add_to_freelist, get_buddy, coalesce, release_block,
  buddy_free,
}
use adelaideos.Buddy.Sizes.{buddy_number}
use adelaideos.Buddy.Tiles.{granules, IsPlace, mark-AreTiles}
use adelaideos.Buddy.Entries.{taken-Hold, change-Hold}
use adelaideos.Buddy.Heap.{IsHeap, write, add-IsHeap, place_fits}
use adelaideos.Buddy.Split.{
  SameUsed, SameUsed-blocks, SameUsed-trans, is_used-block, get_sizem-block, set_used-block,
}
use adelaideos.Buddy.Alloc.{free_block}
use adelaideos.Buddy.Apart.{used_size}
use adelaideos.Buddy.Coalesce.{find_buddy, coalesce-IsHeap}

-- The block at granule `i` is not in use any more; the others in use are the same.
pub record Gives (ma ma' : MemArea) (i : ℕ) : Type 0 where
  pub lower : ma'.lower ≡ ma.lower
  pub upper : ma'.upper ≡ ma.upper
  pub mem : ma'.mem ≡ ma.mem
  pub given : (ma'.blocks i).used ≡ false
  pub kept : (k : ℕ) → i ≢ k → (ma.blocks k).used ≡ true → ma'.blocks k ≡ ma.blocks k
  pub fresh : (k : ℕ) → (ma'.blocks k).used ≡ true → (ma.blocks k).used ≡ true

Gives-marked :
    (ma ma' : MemArea) (i m : ℕ) → SameUsed (write ma i (free_block m)) ma' → Gives ma ma' i
Gives-marked ma ma' i m s =
    let marked = write ma i (free_block m) in
    let idle : (marked.blocks i).used ≡ false =
      ap (λ b. b.used) (update_self ma.blocks i (free_block m)) in
    let other = λ (k : ℕ) (n : i ≢ k). update-ne ma.blocks i k (free_block m) n in
    record {
      lower = s.lower;
      upper = s.upper;
      mem = s.mem;
      given = elim (Bool-cases (ma'.blocks i).used) [
        | inl u ↦ let v = s.fresh i u in cc (v, idle)
        | inr f ↦ f
      ];
      kept = λ k n u. s.kept k (ap (λ b. b.used) (other k n) ∙ u) ∙ other k n;
      fresh = λ k u. elim (eq_or_ne i k) [
        | inl e ↦ let v = s.fresh k u in cc (v, idle, ap (λ z. (marked.blocks z).used) e)
        | inr n ↦ sym (ap (λ b. b.used) (other k n)) ∙ s.fresh k u
      ];
    }

marked-IsHeap :
    (ma : MemArea) (free : ℕ → List ℕ) (i : ℕ)
    → IsHeap ma free []
    → (ma.blocks i).used ≡ true
    → IsHeap (write ma i (free_block (ma.blocks i).sizem)) free (i ∷ [])
marked-IsHeap ma free i h used =
    let v = free_block (ma.blocks i).sizem in
    record {
      lists = record { chain = h.lists.chain; apart = h.lists.apart };
      tiles =
          mark-AreTiles ma.lower ma.upper ma.blocks i v h.tiles (used_size ma i h.tiles used) refl;
      hold =
          change-Hold ma.lower ma.blocks free [] i v
            (taken-Hold ma.lower ma.blocks free [] i h.hold (inr used));
      granule = h.granule;
      ordered = h.ordered;
      short = h.short;
    }

-- The loop and the call behind it, for the block that is marked as free.
insert_merged :
    (ma : MemArea) (free : ℕ → List ℕ) (m i : ℕ)
    → IsHeap ma free (i ∷ [])
    → (ma.blocks i).sizem ≡ m
    → (ma.blocks i).used ≡ false
    → 0 < m
    → (ma' : MemArea) × (free' : ℕ → List ℕ) × ((get_buddy ma (i * 2 ^ ma.lower) >>= λ buddy.
          coalesce (ma.upper - m) ma m (i * 2 ^ ma.lower) buddy >>= λ r.
          add_to_freelist r.0 r.1 r.2)
        ≡ done ma')
      × IsHeap ma' free' []
      × SameUsed ma ma'
insert_merged ma free m i h size idle pos =
    let place = subst (IsPlace ma.lower ma.upper i) size (h.tiles.place i (omega (arith, size))) in
    let x = i * 2 ^ ma.lower in
    let b = buddy_number place.number * granules ma.lower m * 2 ^ ma.lower in
    let buddy = find_buddy ma i m place.number size place.aligned place.above place.below in
    let (ma1, free1, m1, l, run1, h1, size1, idle1, grows, same1) =
      coalesce-IsHeap (ma.upper - m) ma free m i place.number h size idle place.aligned
        place.above in
    let up : 0 < m1 = omega arith in
    let (ma2, run2, h2, same2) = add-IsHeap ma1 free1 [] m1 l h1 size1 idle1 up tt in
    let last : MemArea × ℕ × ℕ → Run MemArea = λ r. add_to_freelist r.0 r.1 r.2 in
    (
      ma2,
      update free1 m1 (l * 2 ^ ma1.lower ∷ free1 m1),
      >>=-done (get_buddy ma x) (λ z. coalesce (ma.upper - m) ma m x z >>= last) b buddy
          ∙ >>=-done (coalesce (ma.upper - m) ma m x b) last (ma1, m1, l * 2 ^ ma.lower) run1
          ∙ ap (λ lo. add_to_freelist ma1 m1 (l * 2 ^ lo)) (sym same1.lower)
          ∙ run2,
      h2,
      SameUsed-trans ma ma1 ma2 same1 (SameUsed-blocks ma1 ma2 same2),
    )

release_block-IsHeap :
    (ma : MemArea) (free : ℕ → List ℕ) (i : ℕ)
    → IsHeap ma free []
    → (ma.blocks i).used ≡ true
    → (ma' : MemArea) × (free' : ℕ → List ℕ) × (release_block ma
          (ma.blocks i).sizem
          (i * 2 ^ ma.lower)
        ≡ done ma')
      × IsHeap ma' free' []
      × Gives ma ma' i
unfolding release_block
release_block-IsHeap ma free i h used =
    let m = (ma.blocks i).sizem in
    let x = i * 2 ^ ma.lower in
    let pos = used_size ma i h.tiles used in
    let place = h.tiles.place i pos in
    let marked = write ma i (free_block m) in
    let here = update_self ma.blocks i (free_block m) in
    let (ma', free', run, h', same) =
      insert_merged marked free m i (marked-IsHeap ma free i h used) (ap (λ b. b.sizem) here)
        (ap (λ b. b.used) here) pos in
    let rest : MemArea → Run MemArea = λ s. get_buddy s x >>= λ buddy.
    coalesce (s.upper - m) s m x buddy >>= λ r. add_to_freelist r.0 r.1 r.2 in
    let in_range =
      and_true (leb ma.lower m) (leb m ma.upper) (le→leb ma.lower m place.above)
        (le→leb m ma.upper place.below) in
    (
      ma',
      free',
      assert-pass (leb ma.lower m && leb m ma.upper)
            (assert (is_used ma x) >> rest (set_used ma x false)) in_range
          ∙ assert-pass (is_used ma x) (rest (set_used ma x false)) (is_used-block ma i ∙ used)
          ∙ ap rest (set_used-block ma i false)
          ∙ run,
      h',
      Gives-marked ma ma' i m same,
    )
  where
    and_true : (a b : Bool) → a ≡ true → b ≡ true → (a && b) ≡ true
    and_true a b p q = rw (p, q) refl

-- In an area that keeps the invariant, freeing the address of a block in use succeeds: no assertion
-- fails and no loop runs out of fuel. Then the block is not in use, the invariant still holds, and the
-- other blocks in use are as they were.
pub buddy_free-IsHeap :
    (ma : MemArea) (free : ℕ → List ℕ) (i : ℕ)
    → IsHeap ma free []
    → (ma.blocks i).used ≡ true
    → (ma' : MemArea) × (free' : ℕ → List ℕ) × (buddy_free ma (some (i * 2 ^ ma.lower + ma.mem))
        ≡ done ma')
      × IsHeap ma' free' []
      × Gives ma ma' i
unfolding buddy_free
buddy_free-IsHeap ma free i h used =
    let m = (ma.blocks i).sizem in
    let x = i * 2 ^ ma.lower in
    let ptr = x + ma.mem in
    let live = used_size ma i h.tiles used in
    let fits = place_fits ma.lower ma.upper i m (h.tiles.place i live) in
    let one = one-le-pow m 2 (omega arith) in
    let back : ptr - ma.mem ≡ x = omega arith in
    let (ma', free', run, h', gives) = release_block-IsHeap ma free i h used in
    let rest : ℕ → Run MemArea = λ b. release_block ma (get_sizem ma b) b in
    let inside : (leb ma.mem ptr && ltb ptr (ma.mem + 2 ^ ma.upper)) ≡ true =
      rw
        (
          le→leb ma.mem ptr (omega arith),
          lt→ltb ptr (ma.mem + 2 ^ ma.upper) (omega (arith, fits, one)),
        )
        refl in
    (
      ma',
      free',
      assert-pass (leb ma.mem ptr && ltb ptr (ma.mem + 2 ^ ma.upper)) (rest (ptr - ma.mem)) inside
          ∙ ap rest back
          ∙ ap (λ s. release_block ma s x) (get_sizem-block ma i)
          ∙ run,
      h',
      gives,
    )
