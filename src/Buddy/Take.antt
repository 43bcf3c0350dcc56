-- ===== src/Buddy/Take.antt =====
-- The block that is marked as used and taken out of its list.
use adelaideos.Common.{
  ℕ, ◌+◌, ◌*◌, ◌^◌, ◌≡◌, ◌≢◌, sym, ap, ◌∙◌, List, [], ◌∷◌, true, false, not, update, update_self,
  update-ne, eq→==, ◌==◌, inl, inr, Run, done, assert, ◌>>=◌, ◌>>◌, assert-pass, >>=-done,
  Bool-cases, arith,
}
use adelaideos.Buddy.{
  BlockInfo, MemArea, empty, get_sizem, is_used, set_used, remove_from_freelist, mark_block,
  take_block,
}
use adelaideos.Buddy.FreeList.{AreLists, SameBlocks, remove_from_freelist-AreLists}
use adelaideos.Buddy.Tiles.{mark-AreTiles}
use adelaideos.Buddy.Entries.{IsEntry-block, take_out-Hold, change-Hold, release_taken}
use adelaideos.Buddy.Heap.{IsHeap, write, relisted-IsHeap, lists_apart}
use adelaideos.Buddy.Refill.{list_full}
use adelaideos.Buddy.Split.{set_used-block, is_used-block, get_sizem-block, SameUsed, first-IsEntry}

-- A block that was free is in use, with the size 2 ^ m, and the other blocks in use are the same.
pub record Takes (ma ma' : MemArea) (i m : ℕ) : Type 0 where
  pub lower : ma'.lower ≡ ma.lower
  pub upper : ma'.upper ≡ ma.upper
  pub mem : ma'.mem ≡ ma.mem
  pub idle : (ma.blocks i).used ≡ false
  pub taken : ma'.blocks i ≡ record { sizem = m; used = true }
  pub kept : (k : ℕ) → (ma.blocks k).used ≡ true → ma'.blocks k ≡ ma.blocks k
  pub fresh : (k : ℕ) → i ≢ k → (ma'.blocks k).used ≡ true → (ma.blocks k).used ≡ true

pub Takes-after : (a b c : MemArea) (i m : ℕ) → SameUsed a b → Takes b c i m → Takes a c i m
Takes-after a b c i m p q = record {
  lower = q.lower ∙ p.lower;
  upper = q.upper ∙ p.upper;
  mem = q.mem ∙ p.mem;
  idle = elim (Bool-cases (a.blocks i).used) [
    | inl u ↦ cc (q.idle, ap (λ z. z.used) (p.kept i u))
    | inr idle ↦ idle
  ];
  taken = q.taken;
  kept = λ k u. q.kept k (ap (λ z. z.used) (p.kept k u) ∙ u) ∙ p.kept k u;
  fresh = λ k n u. p.fresh k (q.fresh k n u);
}

write-Takes :
    (ma ma' : MemArea) (i m : ℕ)
    → SameBlocks (write ma i (record { sizem = m; used = true })) ma'
    → (ma.blocks i).used ≡ false
    → Takes ma ma' i m
write-Takes ma ma' i m same idle =
    let v : BlockInfo = record { sizem = m; used = true } in
    record {
      lower = same.lower;
      upper = same.upper;
      mem = same.mem;
      idle = idle;
      taken = ap (λ s. s i) same.blocks ∙ update_self ma.blocks i v;
      kept = λ k u.
          ap (λ s. s k) same.blocks
          ∙ update-ne ma.blocks i k v (λ e. cc (idle, u, ap (λ z. (ma.blocks z).used) e));
      fresh = λ k n u.
          sym (ap (λ b. b.used) (ap (λ s. s k) same.blocks ∙ update-ne ma.blocks i k v n)) ∙ u;
    }

-- The block that is marked and taken out of its list.
mark_block-IsHeap :
    (ma : MemArea) (free : ℕ → List ℕ) (m i : ℕ) (xs : List ℕ)
    → IsHeap ma free []
    → free m ≡ i * 2 ^ ma.lower ∷ xs
    → (ma' : MemArea) × (mark_block ma m (i * 2 ^ ma.lower) ≡ done (i * 2 ^ ma.lower + ma.mem, ma'))
      × IsHeap ma' (update free m xs) []
      × Takes ma ma' i m
unfolding mark_block
mark_block-IsHeap ma free m i xs h e =
    let x = i * 2 ^ ma.lower in
    let entry = first-IsEntry ma free m x xs h e in
    let (size, idle) = IsEntry-block ma.lower ma.blocks [] i m entry in
    let (full, at_head) = list_full ma free m x xs h.lists e in
    let live = ap not (ap (λ y. empty == y) (sym at_head) ∙ full) in
    let v : BlockInfo = record { sizem = m; used = true } in
    let marked = write ma i v in
    let lists : AreLists marked free = record { chain = h.lists.chain; apart = h.lists.apart } in
    let (ma', run, lists', same) =
      remove_from_freelist-AreLists marked free m x [] xs lists e (omega arith) in
    let mark : set_used ma x true ≡ marked =
      set_used-block ma i true ∙ ap (λ z. write ma i (record { sizem = z; used = true })) size in
    let held =
      take_out-Hold ma.lower ma.blocks free [] i m [] xs h.hold e
        (lists_apart ma free m x [] xs h.lists e) in
    let hold =
      release_taken ma.lower (update ma.blocks i v) (update free m xs) [] i
        (change-Hold ma.lower ma.blocks (update free m xs) [] i v held)
        (inr (ap (λ b. b.used) (update_self ma.blocks i v))) in
    let result : MemArea → Run (ℕ × MemArea) = λ t. done (x + t.mem, t) in
    let rest : MemArea → Run (ℕ × MemArea) = λ s. remove_from_freelist s m x >>= result in
    let rest_size : Run (ℕ × MemArea) = assert (get_sizem ma x == m) >> rest (set_used ma x true) in
    (
      ma',
      assert-pass (not (empty == x)) (assert (not (is_used ma x)) >> rest_size) live
          ∙ assert-pass (not (is_used ma x)) rest_size (ap not (is_used-block ma i ∙ idle))
          ∙ assert-pass (get_sizem ma x == m) (rest (set_used ma x true))
              (eq→== (get_sizem ma x) m (get_sizem-block ma i ∙ size))
          ∙ ap rest mark
          ∙ >>=-done (remove_from_freelist marked m x) result ma' run
          ∙ ap (λ z. done (x + z, ma')) same.mem,
      relisted-IsHeap marked ma' (update free m xs) [] same lists'
          (mark-AreTiles ma.lower ma.upper ma.blocks i v h.tiles (omega (arith, size, entry.4))
            (sym size))
          hold h.granule h.ordered h.short,
      write-Takes ma ma' i m same idle,
    )

-- The allocation of the first block of a list.
pub take_block-IsHeap :
    (ma : MemArea) (free : ℕ → List ℕ) (m x : ℕ) (xs : List ℕ)
    → IsHeap ma free []
    → free m ≡ x ∷ xs
    → (ma' : MemArea) × (i : ℕ) × (take_block ma m ≡ done (i * 2 ^ ma.lower + ma.mem, ma'))
      × IsHeap ma' (update free m xs) []
      × Takes ma ma' i m
unfolding take_block
take_block-IsHeap ma free m x xs h e =
    let (i, at_i, size, idle, pos, others) = first-IsEntry ma free m x xs h e in
    let (full, head) = list_full ma free m x xs h.lists e in
    let (ma', run, h', taken) = mark_block-IsHeap ma free m i xs h (e ∙ ap (λ y. y ∷ xs) at_i) in
    (ma', i, ap (mark_block ma m) (head ∙ at_i) ∙ run, h', taken)
