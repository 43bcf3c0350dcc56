-- ===== src/Buddy/Heap.antt =====
-- The invariant of the allocator: blocks that do not overlap, and the lists of those that are free.
use native.Mathlib.Nat.{two-pow-succ, one-le-pow, pow-le-pow_right}
use adelaideos.Common.{
  ℕ, zero, suc, ◌+◌, ◌-◌, ◌*◌, ◌/◌, ◌^◌, ◌≤◌, ◌<◌, ◌≡◌, ◌≢◌, sym, ap, subst, ◌∙◌, List, [], ◌∷◌,
  ◌++◌, length, length-append, All, All-map, All-drop, AllApart, length-le_multiples, false, update,
  done, arith,
}
use adelaideos.Buddy.{BlockInfo, MemArea, empty, index, add_to_freelist, remove_from_freelist}
use adelaideos.Buddy.FreeList.{
  AreLists, SameBlocks, IsAbsent, Chain, add_to_freelist-AreLists, remove_from_freelist-AreLists,
}
use adelaideos.Buddy.Tiles.{granules, IsPlace, AreTiles, granules-pos}
use adelaideos.Buddy.Entries.{IsEntry, Hold, offset-ne, take_out-Hold, put_in-Hold}

-- The blocks do not overlap, and the lists hold exactly the free ones but for those in hand.
pub record IsHeap (ma : MemArea) (free : ℕ → List ℕ) (out : List ℕ) : Type 0 where
  pub lists : AreLists ma free
  pub tiles : AreTiles ma.lower ma.upper ma.blocks
  pub hold : Hold ma.lower ma.blocks free out
  pub granule : 0 < ma.lower
  pub ordered : ma.lower ≤ ma.upper
  pub short : ma.upper ≤ 31

pow-add : (a b : ℕ) → 2 ^ (a + b) ≡ 2 ^ a * 2 ^ b
pow-add zero b = let e : 0 + b ≡ b = omega arith in rw e (omega arith)
pow-add (suc a) b =
    let e : suc a + b ≡ suc (a + b) = omega arith in
    let d = distribute (2 ^ a) (2 ^ b) in
    rw e (omega (arith, two-pow-succ (a + b), pow-add a b, d, ap (λ n. n * 2 ^ b) (two-pow-succ a)))
  where
    distribute : (x y : ℕ) → (x + x) * y ≡ x * y + x * y
    distribute x y = grind arith

-- The bytes of a block are its granules.
pub granules-bytes : (lower m : ℕ) → lower ≤ m → granules lower m * 2 ^ lower ≡ 2 ^ m
granules-bytes lower m h =
    let e : m - lower + lower ≡ m = omega arith in
    sym (pow-add (m - lower) lower) ∙ ap (λ n. 2 ^ n) e

pub offset-index : (ma : MemArea) (i : ℕ) → index ma (i * 2 ^ ma.lower) ≡ i
offset-index ma i = quotient i (2 ^ ma.lower) (one-le-pow ma.lower 2 (omega arith))
  where
    quotient : (q d : ℕ) → 1 ≤ d → q * d / d ≡ q
    quotient q d h = grind arith

pub add_mul : (a b d : ℕ) → (a + b) * d ≡ a * d + b * d
add_mul a b d = grind arith

pub mul_mono : (a b d : ℕ) → a ≤ b → a * d ≤ b * d
mul_mono a b d h = grind arith

-- The last byte of a block lies in the area.
pub place_fits : (lower upper i m : ℕ) → IsPlace lower upper i m → i * 2 ^ lower + 2 ^ m ≤ 2 ^ upper
place_fits lower upper i m p =
    let up : lower ≤ upper = omega (arith, p.above, p.below) in
    omega (
      arith,
      add_mul i (granules lower m) (2 ^ lower),
      mul_mono (i + granules lower m) (granules lower upper) (2 ^ lower) p.within,
      granules-bytes lower m p.above,
      granules-bytes lower upper up,
    )

pub place_live :
    (lower upper i m : ℕ) → upper ≤ 31 → IsPlace lower upper i m → i * 2 ^ lower ≢ empty
place_live lower upper i m short p =
    let b : 2 ^ upper ≤ 2 ^ 31 = pow-le-pow_right (omega arith) short in
    λ e. omega (arith, place_fits lower upper i m p, b, e)

Chain-AllApart : (links : ℕ → ℕ) (h : ℕ) (xs : List ℕ) → Chain links h xs → AllApart xs
Chain-AllApart links h [] c = tt
Chain-AllApart links h (x ∷ xs) c = (c.2, Chain-AllApart links (links x) xs c.3)

apart_others : (x : ℕ) (xs ys : List ℕ) → AllApart (xs ++ x ∷ ys) → All (λ y. x ≢ y) (xs ++ ys)
apart_others x [] ys h = h.0
apart_others x (w ∷ ws) ys h =
    ((λ e. (All-drop (λ y. w ≢ y) ws ys x h.0).0 (sym e)), apart_others x ws ys h.1)

entry_within :
    (ma : MemArea) (i m : ℕ)
    → AreTiles ma.lower ma.upper ma.blocks
    → (ma.blocks i).sizem ≡ m
    → 0 < m
    → i < granules ma.lower ma.upper
entry_within ma i m t size pos =
    let p = t.place i (omega (arith, size, pos)) in
    omega (arith, p.within, granules-pos ma.lower (ma.blocks i).sizem)

-- A list is not longer than the area has granules.
pub list_short :
    (ma : MemArea) (free : ℕ → List ℕ) (out : List ℕ) (m : ℕ)
    → IsHeap ma free out
    → length (free m) ≤ granules ma.lower ma.upper
list_short ma free out m h =
    length-le_multiples (2 ^ ma.lower) (granules ma.lower ma.upper) (free m)
      (Chain-AllApart ma.links (ma.freelist m) (free m) (h.lists.chain m))
      (All-map (IsEntry ma.lower ma.blocks out m)
        (λ x. (i : ℕ) × (x ≡ i * 2 ^ ma.lower) × (i < granules ma.lower ma.upper)) (free m)
        (λ x p. (p.0, p.1, entry_within ma p.0 m h.tiles p.2 p.4)) (h.hold.sound m))

-- An operation on the lists leaves the invariant when it does so for lists and blocks.
pub relisted-IsHeap :
    (ma ma' : MemArea) (free : ℕ → List ℕ) (out : List ℕ)
    → SameBlocks ma ma'
    → AreLists ma' free
    → AreTiles ma.lower ma.upper ma.blocks
    → Hold ma.lower ma.blocks free out
    → 0 < ma.lower
    → ma.lower ≤ ma.upper
    → ma.upper ≤ 31
    → IsHeap ma' free out
relisted-IsHeap ma ma' free out same lists tiles hold granule ordered short = record {
  lists = lists;
  tiles = rw (same.lower, same.upper, same.blocks) tiles;
  hold = rw (same.lower, same.blocks) hold;
  granule = rw same.lower granule;
  ordered = rw (same.lower, same.upper) ordered;
  short = rw same.upper short;
}

abbrev pub write : MemArea → ℕ → BlockInfo → MemArea
write ma i v = record ma { blocks = update ma.blocks i v }

pub lists_apart :
    (ma : MemArea) (free : ℕ → List ℕ) (m x : ℕ) (xs ys : List ℕ)
    → AreLists ma free
    → free m ≡ xs ++ x ∷ ys
    → All (λ y. x ≢ y) (xs ++ ys)
lists_apart ma free m x xs ys h e =
    let chain = Chain-AllApart ma.links (ma.freelist m) (free m) (h.chain m) in
    apart_others x xs ys (subst AllApart e chain)

-- A block is taken out of its list.
pub remove-IsHeap :
    (ma : MemArea) (free : ℕ → List ℕ) (out : List ℕ) (m i : ℕ) (xs ys : List ℕ)
    → IsHeap ma free out
    → free m ≡ xs ++ i * 2 ^ ma.lower ∷ ys
    → (ma' : MemArea) × (remove_from_freelist ma m (i * 2 ^ ma.lower) ≡ done ma')
      × IsHeap ma' (update free m (xs ++ ys)) (i ∷ out)
      × SameBlocks ma ma'
remove-IsHeap ma free out m i xs ys h e =
    let x = i * 2 ^ ma.lower in
    let longer : length xs ≤ length (xs ++ x ∷ ys) = omega (arith, length-append xs (x ∷ ys)) in
    let bound = list_short ma free out m h in
    let short : length xs ≤ 2 ^ (ma.upper - ma.lower) = omega (arith, longer, bound, ap length e) in
    let (ma', run, lists, same) = remove_from_freelist-AreLists ma free m x xs ys h.lists e short in
    let apart = lists_apart ma free m x xs ys h.lists e in
    (
      ma',
      run,
      relisted-IsHeap ma ma' (update free m (xs ++ ys)) (i ∷ out) same lists h.tiles
          (take_out-Hold ma.lower ma.blocks free out i m xs ys h.hold e apart) h.granule h.ordered
          h.short,
      same,
    )

-- A free block in hand is put into its list.
pub add-IsHeap :
    (ma : MemArea) (free : ℕ → List ℕ) (out : List ℕ) (m i : ℕ)
    → IsHeap ma free (i ∷ out)
    → (ma.blocks i).sizem ≡ m
    → (ma.blocks i).used ≡ false
    → 0 < m
    → All (λ y. i ≢ y) out
    → (ma' : MemArea) × (add_to_freelist ma m (i * 2 ^ ma.lower) ≡ done ma')
      × IsHeap ma' (update free m (i * 2 ^ ma.lower ∷ free m)) out
      × SameBlocks ma ma'
add-IsHeap ma free out m i h size idle pos fresh =
    let x = i * 2 ^ ma.lower in
    let place : IsPlace ma.lower ma.upper i m =
      rw size at (h.tiles.place i (omega (arith, size, pos))) in
    let absent : IsAbsent free x = λ n.
      All-map (IsEntry ma.lower ma.blocks (i ∷ out) n) (λ y. x ≢ y) (free n)
        (λ y p e. offset-ne ma.lower p.0 i p.5.0 (sym p.1 ∙ sym e)) (h.hold.sound n) in
    let (ma', run, lists, same) =
      add_to_freelist-AreLists ma free m x h.lists absent
        (place_live ma.lower ma.upper i m h.short place) (place_fits ma.lower ma.upper i m place) in
    (
      ma',
      run,
      relisted-IsHeap ma ma' (update free m (x ∷ free m)) out same lists h.tiles
          (put_in-Hold ma.lower ma.blocks free out i m h.hold size idle pos fresh) h.granule
          h.ordered h.short,
      same,
    )
