-- ===== src/Buddy/Coalesce.antt =====
-- The loop that merges a free block with its buddies.
use adelaideos.Common.{
  ℕ, zero, suc, ◌+◌, ◌*◌, ◌^◌, ◌≤◌, ◌≡◌, refl, sym, ap, ◌∙◌, List, [], ◌∷◌, Bool, true, false, not,
  ◌&&◌, ◌==◌, ltb, ltb→lt, ==→eq, inl, inr, Run, done, ◌>>=◌, >>=-done, Bool-cases, arith,
}
use adelaideos.Buddy.{MemArea, get_sizem, is_used, get_buddy, merge, coalesce}
use adelaideos.Buddy.Sizes.{buddy_number, get_buddy-number}
use adelaideos.Buddy.Tiles.{granules}
use adelaideos.Buddy.Heap.{IsHeap, granules-bytes}
use adelaideos.Buddy.Split.{SameUsed, SameUsed-trans, SameUsed-refl, is_used-block, get_sizem-block}
use adelaideos.Buddy.Merge.{merge-Joined}

-- The granule of the buddy of the block at granule `i` = q * granules.
pub find_buddy :
    (ma : MemArea) (i m q : ℕ)
    → (ma.blocks i).sizem ≡ m
    → i ≡ q * granules ma.lower m
    → ma.lower ≤ m
    → m ≤ ma.upper
    → get_buddy ma (i * 2 ^ ma.lower) ≡ done (buddy_number q * granules ma.lower m * 2 ^ ma.lower)
find_buddy ma i m q size at_i lo hi =
    let bytes = granules-bytes ma.lower m lo in
    let regroup = λ (n : ℕ). assoc n (granules ma.lower m) (2 ^ ma.lower) ∙ ap (λ b. n * b) bytes in
    let here : i * 2 ^ ma.lower ≡ q * 2 ^ m = ap (λ k. k * 2 ^ ma.lower) at_i ∙ regroup q in
    ap (get_buddy ma) here
    ∙ get_buddy-number ma q m (ap (get_sizem ma) (sym here) ∙ get_sizem-block ma i ∙ size) lo hi
    ∙ ap done (sym (regroup (buddy_number q)))
  where
    assoc : (a b c : ℕ) → a * b * c ≡ a * (b * c)
    assoc a b c = grind arith

and_parts : (a b c : Bool) → (a && not b && c) ≡ true → (a ≡ true) × (b ≡ false) × (c ≡ true)
and_parts true false true e = (refl, refl, refl)
and_parts true false false e = absurd (cc e)
and_parts true true c e = absurd (cc e)
and_parts false b c e = absurd (cc e)

-- A round that merges: the rest of the loop goes on with the block at `x1`.
coalesce-step :
    (n : ℕ) (ma ma1 : MemArea) (m x y x1 y1 : ℕ) (r : MemArea × ℕ × ℕ)
    → (ltb m ma.upper && not (is_used ma y) && (get_sizem ma y == m)) ≡ true
    → merge ma m x y ≡ done (ma1, x1)
    → get_buddy ma1 x1 ≡ done y1
    → coalesce n ma1 (m + 1) x1 y1 ≡ done r
    → coalesce (suc n) ma m x y ≡ done r
unfolding coalesce
coalesce-step n ma ma1 m x y x1 y1 r goes merged buddy rest =
    let Loop = Run (MemArea × ℕ × ℕ) in
    let next : MemArea × ℕ → Loop = λ p. get_buddy p.0 p.1 >>= λ b. coalesce n p.0 (m + 1) p.1 b in
    let run_test : Bool → Loop =
      λ b. elim b [ true ↦ merge ma m x y >>= next | false ↦ done (ma, m, x) ] in
    ap run_test goes
    ∙ >>=-done (merge ma m x y) next (ma1, x1) merged
    ∙ >>=-done (get_buddy ma1 x1) (λ b. coalesce n ma1 (m + 1) x1 b) y1 buddy
    ∙ rest

coalesce-stops :
    (n : ℕ) (ma : MemArea) (m x y : ℕ)
    → (ltb m ma.upper && not (is_used ma y) && (get_sizem ma y == m)) ≡ false
    → coalesce (suc n) ma m x y ≡ done (ma, m, x)
unfolding coalesce
coalesce-stops n ma m x y stops = rw (stops, coalesce) refl

-- The loop that merges leaves one free block in hand and does not touch those in use.
pub coalesce-IsHeap :
    (n : ℕ) (ma : MemArea) (free : ℕ → List ℕ) (m i q : ℕ)
    → IsHeap ma free (i ∷ [])
    → (ma.blocks i).sizem ≡ m
    → (ma.blocks i).used ≡ false
    → i ≡ q * granules ma.lower m
    → ma.lower ≤ m
    → (ma' : MemArea) × (free' : ℕ → List ℕ) × (m' : ℕ) × (l : ℕ) × (coalesce n ma m
          (i * 2 ^ ma.lower)
          (buddy_number q * granules ma.lower m * 2 ^ ma.lower)
        ≡ done (ma', m', l * 2 ^ ma.lower))
      × IsHeap ma' free' (l ∷ [])
      × ((ma'.blocks l).sizem ≡ m')
      × ((ma'.blocks l).used ≡ false)
      × (m ≤ m')
      × SameUsed ma ma'
unfolding coalesce
coalesce-IsHeap zero ma free m i q h size idle at_i above =
    (ma, free, m, i, refl, h, size, idle, omega arith, SameUsed-refl ma)
coalesce-IsHeap (suc n) ma free m i q h size idle at_i above =
    let P = 2 ^ ma.lower in
    let j = buddy_number q * granules ma.lower m in
    let x = i * P in
    let y = j * P in
    let test = ltb m ma.upper && not (is_used ma y) && (get_sizem ma y == m) in
    elim (Bool-cases test) [
      | inr stops ↦ (
        ma,
        free,
        m,
        i,
        coalesce-stops n ma m x y stops,
        h,
        size,
        idle,
        omega arith,
        SameUsed-refl ma,
      )
      | inl goes ↦
          let (inside, other_idle, same_size) =
            and_parts (ltb m ma.upper) (is_used ma y) (get_sizem ma y == m) goes in
          let size_j = sym (get_sizem-block ma j) ∙ ==→eq (get_sizem ma y) m same_size in
          let idle_j = sym (is_used-block ma j) ∙ other_idle in
          let (ma1, l, run1, joined) =
            merge-Joined ma free m i j q h size idle size_j idle_j above (ltb→lt m ma.upper inside)
              at_i refl in
          let s = joined.same in
          let next : suc m ≡ m + 1 = omega arith in
          let size1 = joined.size ∙ next in
          let at_l = joined.aligned ∙ ap (λ k. joined.number * granules ma1.lower k) next in
          let above1 : ma1.lower ≤ m + 1 = omega (arith, s.lower, above) in
          let below1 : m + 1 ≤ ma1.upper = omega (arith, s.upper, ltb→lt m ma.upper inside) in
          let buddy = find_buddy ma1 l (m + 1) joined.number size1 at_l above1 below1 in
          let b = buddy_number joined.number * granules ma1.lower (m + 1) * 2 ^ ma1.lower in
          let (ma2, free2, m2, k, run2, h2, size2, idle2, grows, same2) =
            coalesce-IsHeap n ma1 joined.free (m + 1) l joined.number joined.heap size1 joined.idle
              at_l above1 in
          let found = ap (λ lo. get_buddy ma1 (l * 2 ^ lo)) (sym s.lower) ∙ buddy in
          let rest =
            ap (λ lo. coalesce n ma1 (m + 1) (l * 2 ^ lo) b) (sym s.lower)
            ∙ run2
            ∙ ap (λ lo. done (ma2, m2, k * 2 ^ lo)) s.lower in
          (
            ma2,
            free2,
            m2,
            k,
            coalesce-step n ma ma1 m x y (l * P) b (ma2, m2, k * P) goes run1 found rest,
            h2,
            size2,
            idle2,
            omega arith,
            SameUsed-trans ma ma1 ma2 s same2,
          )
    ]
