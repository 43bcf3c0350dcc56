-- ===== src/Buddy/Request.antt =====
-- Allocation in an area that keeps the invariant.
use native.Mathlib.Nat.{pow-le-pow_right}
use adelaideos.Common.{
  ℕ, ◌+◌, ◌-◌, ◌*◌, ◌^◌, ◌≤◌, ◌<◌, ◌≡◌, sym, ap, ◌∙◌, List, [], Bool, true, update, eq_or_ne, ◌==◌,
  leb, leb→le, ◌⊎◌, inl, inr, if◌then◌else◌, Run, done, stop, assert_failed, ◌>>=◌, >>=-done,
  Bool-cases, arith,
}
use adelaideos.Buddy.{MemArea, empty, refill, take_block, mforsize, buddy_alloc}
use adelaideos.Buddy.Sizes.{mforsize-least}
use adelaideos.Buddy.Heap.{IsHeap}
use adelaideos.Buddy.Refill.{List-cases, In-nil, list_empty, list_full, refill-IsHeap}
use adelaideos.Buddy.Take.{Takes, Takes-after, take_block-IsHeap}
use adelaideos.Buddy.Apart.{AreApart, taken_apart}

-- A block that a request fits in has at least the size that `mforsize` rounds up to.
size_suffices : (lower n m s : ℕ) → (m ≡ lower) ⊎ (2 ^ (m - 1) ≤ n) → lower ≤ s → n < 2 ^ s → m ≤ s
size_suffices lower n m s least above fits = elim (Bool-cases (leb m s)) [
  | inl le ↦ leb→le m s le
  | inr gt ↦ elim least [
    | inl e ↦ omega (arith, e)
    | inr low ↦
        let lt : s < m = ground arith in
        let p : 2 ^ s ≤ 2 ^ (m - 1) = pow-le-pow_right (omega arith) (omega arith) in
        absurd (omega arith)
  ]
]

-- When no list from that of size `m` on has a block, all blocks of these sizes are in use.
all_used :
    (ma : MemArea) (free : ℕ → List ℕ) (m k : ℕ)
    → IsHeap ma free []
    → ((n : ℕ) → m ≤ n → n ≤ ma.upper → free n ≡ [])
    → 0 < (ma.blocks k).sizem
    → m ≤ (ma.blocks k).sizem
    → (ma.blocks k).used ≡ true
all_used ma free m k h none_left live large = elim (Bool-cases (ma.blocks k).used) [
  | inl u ↦ u
  | inr idle ↦
      let s = (ma.blocks k).sizem in
      let p = h.tiles.place k live in
      absurd (
        In-nil (k * 2 ^ ma.lower) (free s) (none_left s large p.below)
          (h.hold.complete k live idle tt))
]

-- In an area that keeps the invariant, a request below 2 ^ 31 bytes either stops at the failed
-- assertion of exhausted memory, and then every block that is larger than the request is in use; or
-- it returns the address of a block that is larger than the request, lies in the area, does not overlap
-- with a block that was in use, was not in use and now is. The invariant still holds and every other
-- block in use is as it was; no other assertion fails and no loop runs out of fuel.
pub buddy_alloc-IsHeap :
    (ma : MemArea) (free : ℕ → List ℕ) (nbytes : ℕ)
    → IsHeap ma free []
    → nbytes < 2 ^ 31
    → ((buddy_alloc ma nbytes ≡ stop assert_failed)
        × ((k : ℕ)
            → 0 < (ma.blocks k).sizem
            → nbytes < 2 ^ (ma.blocks k).sizem
            → (ma.blocks k).used ≡ true))
      ⊎ ((ma' : MemArea) × (free' : ℕ → List ℕ) × (i : ℕ) × (m : ℕ) × (buddy_alloc ma nbytes
            ≡ done (i * 2 ^ ma.lower + ma.mem, ma'))
          × (nbytes < 2 ^ m)
          × IsHeap ma' free' []
          × Takes ma ma' i m
          × (i * 2 ^ ma.lower + 2 ^ m ≤ 2 ^ ma.upper)
          × ((k : ℕ) → (ma.blocks k).used ≡ true → AreApart ma.lower i m k (ma.blocks k).sizem))
unfolding buddy_alloc
buddy_alloc-IsHeap ma free nbytes h small =
    let (m, em, above, fits, least) = mforsize-least ma nbytes small in
    let taking : MemArea → Run (ℕ × MemArea) = λ s. take_block s m in
    let body : ℕ → Run (ℕ × MemArea) =
      λ k. (if empty == ma.freelist k then refill ma k else done ma) >>= λ s. take_block s k in
    let start = >>=-done (mforsize ma nbytes) body m em in
    let choose : Bool → Run (ℕ × MemArea) = λ b. (if b then refill ma m else done ma) >>= taking in
    elim (List-cases (free m)) [
      | inr (x, xs, e) ↦
          let (full, head) = list_full ma free m x xs h.lists e in
          let (ma', i, run, h', taken) = take_block-IsHeap ma free m x xs h e in
          let (inside, others) = taken_apart ma ma' (update free m xs) i m h' taken in
          inr (
            ma',
            update free m xs,
            i,
            m,
            start ∙ ap choose full ∙ run,
            fits,
            h',
            taken,
            inside,
            others,
          )
      | inl e ↦
          let none_here = start ∙ ap choose (list_empty ma free m h.lists e) in
          elim (refill-IsHeap ma free m h above) [
            | inl (fails, none_left) ↦ inl (
              none_here ∙ ap (λ r. r >>= taking) fails,
              λ k live larger.
                  let p = h.tiles.place k live in
                  all_used ma free m k h
                    (λ n lo hi. elim (eq_or_ne m n) [
                      | inl same ↦ ap free (sym same) ∙ e
                      | inr ne ↦ none_left n (omega (arith, ne)) hi
                    ])
                    live (size_suffices ma.lower nbytes m (ma.blocks k).sizem least p.above larger),
            )
            | inr (ma1, free1, x, xs, found, h1, same, first) ↦
                let (ma2, i, run, h2, taken) = take_block-IsHeap ma1 free1 m x xs h1 first in
                let takes = Takes-after ma ma1 ma2 i m same taken in
                let (inside, others) = taken_apart ma ma2 (update free1 m xs) i m h2 takes in
                inr (
                  ma2,
                  update free1 m xs,
                  i,
                  m,
                  none_here
                      ∙ ap (λ r. r >>= taking) found
                      ∙ run
                      ∙ ap (λ l. done (i * 2 ^ l + ma1.mem, ma2)) same.lower
                      ∙ ap (λ a. done (i * 2 ^ ma.lower + a, ma2)) same.mem,
                  fits,
                  h2,
                  takes,
                  inside,
                  others,
                )
          ]
    ]
