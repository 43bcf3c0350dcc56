-- ===== src/Buddy/Refill.antt =====
-- The search for a free block of the size that is asked for, or a larger one that is split.
use adelaideos.Common.{
  ℕ, zero, suc, ◌+◌, ◌-◌, ◌≤◌, ◌<◌, ◌≡◌, refl, sym, ap, subst, ◌∙◌, List, [], ◌∷◌, ◌++◌, true,
  false, none, some, eq_or_ne, eq→==, ne→==, ◌==◌, ◌⊎◌, inl, inr, done, stop, assert_failed, arith,
}
use adelaideos.Buddy.{MemArea, empty, find_larger, refill}
use adelaideos.Buddy.FreeList.{AreLists, Chain}
use adelaideos.Buddy.Entries.{In}
use adelaideos.Buddy.Heap.{IsHeap}
use adelaideos.Buddy.Split.{SameUsed}
use adelaideos.Buddy.Alloc.{split_loop-IsHeap}

pub List-cases : (l : List ℕ) → (l ≡ []) ⊎ ((x : ℕ) × (xs : List ℕ) × (l ≡ x ∷ xs))
List-cases [] = inl refl
List-cases (x ∷ xs) = inr (x, xs, refl)

pub In-nil : (x : ℕ) (l : List ℕ) → l ≡ [] → In x l → ⊥
In-nil x l e h = let (us, vs, f) = h in cons_full us x vs (sym f ∙ e)
  where
    cons_full : (xs : List ℕ) (x : ℕ) (ys : List ℕ) → xs ++ x ∷ ys ≡ [] → ⊥
    cons_full [] x ys e = cc
    cons_full (w ∷ ws) x ys e = cc

pub list_empty :
    (ma : MemArea) (free : ℕ → List ℕ) (m : ℕ)
    → AreLists ma free
    → free m ≡ []
    → (empty == ma.freelist m) ≡ true
list_empty ma free m h e =
    eq→== empty (ma.freelist m) (sym (subst (Chain ma.links (ma.freelist m)) e (h.chain m)))

pub list_full :
    (ma : MemArea) (free : ℕ → List ℕ) (m x : ℕ) (xs : List ℕ)
    → AreLists ma free
    → free m ≡ x ∷ xs
    → ((empty == ma.freelist m) ≡ false) × (ma.freelist m ≡ x)
list_full ma free m x xs h e =
    let c = subst (Chain ma.links (ma.freelist m)) e (h.chain m) in
    (ne→== empty (ma.freelist m) (λ f. c.1 (sym c.0 ∙ sym f)), c.0)

-- The search finds a list with a block in it, or all that it looks at are empty.
find_larger_lem :
    (rounds : ℕ) (ma : MemArea) (free : ℕ → List ℕ) (cm : ℕ)
    → AreLists ma free
    → ((find_larger rounds ma cm ≡ none) × ((k : ℕ) → cm ≤ k → k < cm + rounds → free k ≡ []))
      ⊎ ((k : ℕ) × (x : ℕ) × (xs : List ℕ) × (find_larger rounds ma cm ≡ some k)
          × (cm ≤ k)
          × (k < cm + rounds)
          × (free k ≡ x ∷ xs))
unfolding find_larger
find_larger_lem zero ma free cm h = inl (refl, λ k lo hi. absurd (omega arith))
find_larger_lem (suc rounds) ma free cm h = elim (List-cases (free cm)) [
  | inr (x, xs, e) ↦
      let c = list_full ma free cm x xs h e in
      inr (cm, x, xs, rw c.0 refl, omega arith, omega arith, e)
  | inl e ↦
      let c = list_empty ma free cm h e in
      elim (find_larger_lem rounds ma free (cm + 1) h) [
        | inl none_left ↦ inl (
          rw c none_left.0,
          λ k lo hi. elim (eq_or_ne cm k) [
            | inl same ↦ ap free (sym same) ∙ e
            | inr n ↦ none_left.1 k (omega (arith, n)) (omega arith)
          ],
        )
        | inr (k, x, xs, found, lo, hi, f) ↦ inr (k, x, xs, rw c found, omega arith, omega arith, f)
      ]
]

pub refill-IsHeap :
    (ma : MemArea) (free : ℕ → List ℕ) (m : ℕ)
    → IsHeap ma free []
    → ma.lower ≤ m
    → ((refill ma m ≡ stop assert_failed) × ((k : ℕ) → m < k → k ≤ ma.upper → free k ≡ []))
      ⊎ ((ma' : MemArea) × (free' : ℕ → List ℕ) × (x : ℕ) × (ys : List ℕ) × (refill ma m ≡ done ma')
          × IsHeap ma' free' []
          × SameUsed ma ma'
          × (free' m ≡ x ∷ ys))
unfolding refill
refill-IsHeap ma free m h above = elim (find_larger_lem (ma.upper - m) ma free (m + 1) h.lists) [
  | inl (missing, all) ↦
      inl (rw (missing, refill) refl, λ k lo hi. all k (omega arith) (omega arith))
  | inr (k, x, xs, found, lo, hi, e) ↦
      let back : m + (k - m) ≡ k = omega arith in
      let small = h.short in
      let (ma', free', ys, run, h', same, first) =
        split_loop-IsHeap (k - m) ma free m x xs h (ap free back ∙ e) above
          (omega (arith, small, lo, hi)) in
      inr (ma', free', x, ys, rw (found, refill) run, h', same, first)
]
