-- ===== src/Page/Free.antt =====
-- The list of free pages: no page is handed out while it is in use.
use adelaideos.Common.{
  AllApart, ℕ, ◌+◌, ◌-◌, ◌*◌, ◌%◌, ◌≤◌, ◌<◌, ◌≡◌, ◌≢◌, ◌⊎◌, inl, inr, List, [], ◌∷◌, All, All-map,
  All-map₂, lt→ltb, eq_or_ne, eq→==, ne→==, update_self, update-ne, u32_mod, for_below-keeps, done,
  arith, refl,
}
use adelaideos.Page.{Pages, page_size, store, zero_page, alloc_page, free_page}

-- The pages that are reached from `a`, each of which holds the address of the next in its first word.
abbrev pub IsChain : (ℕ → ℕ) → ℕ → List ℕ → Type 0
IsChain words a [] = a ≡ 0
IsChain words a (x ∷ xs) = (a ≡ x) × (x ≢ 0) × IsChain words (words x) xs

-- The free pages are exactly `fs`, each of them once; all lie below `page_end` on page boundaries.
pub record IsFree (p : Pages) (fs : List ℕ) : Type 0 where
  pub chain : IsChain p.words p.page_free fs
  pub aligned : All (λ a. a % page_size ≡ 0) fs
  pub below : All (λ a. a < p.page_end) fs
  pub apart : AllApart fs

-- The page at `a` is zero, and the words of other pages are unchanged.
abbrev pub IsZeroed : ℕ → (ℕ → ℕ) → (ℕ → ℕ) → Type 0
IsZeroed a before after =
    ((j : ℕ) → j < 1024 → after (a + 4 * j) ≡ 0)
    × ((b : ℕ) → (b < a) ⊎ (a + page_size ≤ b) → after b ≡ before b)

abbrev SamePages : Pages → Pages → Type 0
SamePages p q = (q.page_end ≡ p.page_end) × (q.page_free ≡ p.page_free) × (q.npages ≡ p.npages)

abbrev ZeroedTo : ℕ → Pages → ℕ → Pages → Type 0
ZeroedTo a p i q =
    i ≤ 1024
    → SamePages p q
      × ((j : ℕ) → j < i → q.words (a + 4 * j) ≡ 0)
      × ((b : ℕ) → (b < a) ⊎ (a + page_size ≤ b) → q.words b ≡ p.words b)

zero_page-IsZeroed :
    (a : ℕ) (p : Pages)
    → SamePages p (zero_page a p) × IsZeroed a p.words (Pages.words (zero_page a p))
unfolding zero_page
zero_page-IsZeroed a p =
    let (same, zeros, others) =
      for_below-keeps (λ i q. store q (a + 4 * i) 0) (ZeroedTo a p) p
        (λ _. ((refl, refl, refl), (λ j lt. absurd (omega arith)), (λ b o. refl)))
        (λ i q h le.
          let (same, zeros, others) = h (omega arith) in
          (
            same,
            (λ j lt. elim (eq_or_ne j i) [
              | inl e ↦ rw (eq→== (a + 4 * i) (a + 4 * j) (omega arith)) refl
              | inr n ↦ rw (ne→== (a + 4 * i) (a + 4 * j) (omega arith)) (zeros j (omega arith))
            ]),
            (λ b o.
                rw (ne→== (a + 4 * i) b (λ e. elim o [ inl l ↦ omega arith | inr r ↦ omega arith ]))
                  (others b o)),
          ))
        1024 (omega arith) in
    (same, (zeros, others))

-- A chain is kept where the first words of its pages are kept.
IsChain-frame :
    (words new : ℕ → ℕ) (a : ℕ) (xs : List ℕ)
    → All (λ x. new x ≡ words x) xs
    → IsChain words a xs
    → IsChain new a xs
IsChain-frame words new a [] same c = c
IsChain-frame words new a (x ∷ xs) same (e, n, c) =
    (e, n, rw same.0 (IsChain-frame words new (words x) xs same.1 c))

-- Two different pages do not overlap.
pages_apart :
    (a b : ℕ) → a % page_size ≡ 0 → b % page_size ≡ 0 → a ≢ b → (b < a) ⊎ (a + page_size ≤ b)
pages_apart a b ha hb n = omega arith

-- While there are free pages, and they are aligned and different, the first of them is handed out:
-- it is not free afterwards, and the others are; it is filled with zeros, and no other page is
-- changed.
pub alloc_page-IsFree :
    (p : Pages) (a : ℕ) (fs : List ℕ)
    → IsFree p (a ∷ fs)
    → ((alloc_page p).0 ≡ a)
      × All (λ x. a ≢ x) fs
      × IsFree (alloc_page p).1 fs
      × IsZeroed a p.words (Pages.words (alloc_page p).1)
unfolding alloc_page
alloc_page-IsFree p a fs free =
    let (first, n, chain) = free.chain in
    let r : Pages = record p { npages = (p.npages + 1) % u32_mod; page_free = p.words a } in
    let (same, zeroed) = zero_page-IsZeroed a r in
    let kept : All (λ x. Pages.words (zero_page a r) x ≡ p.words x) fs =
      All-map₂ (λ x. a ≢ x) (λ x. x % page_size ≡ 0)
        (λ x. Pages.words (zero_page a r) x ≡ p.words x) fs
        (λ x d al. zeroed.1 x (pages_apart a x free.aligned.0 al d)) free.apart.0 free.aligned.1 in
    rw (ne→== p.page_free 0 (rw first n), first)
      (
        refl,
        free.apart.0,
        record {
          chain =
              rw same.1
                (IsChain-frame p.words (Pages.words (zero_page a r)) (p.words a) fs kept chain);
          aligned = free.aligned.1;
          below = rw same.0 free.below.1;
          apart = free.apart.1;
        },
        zeroed,
      )

-- When no page is free and the address space is not used up, the page at `page_end` is handed out
-- and `page_end` moves behind it; it is filled with zeros, and no other page is changed.
pub alloc_page-fresh :
    (p : Pages)
    → IsFree p []
    → p.page_end + page_size < u32_mod
    → ((alloc_page p).0 ≡ p.page_end)
      × (Pages.page_end (alloc_page p).1 ≡ p.page_end + page_size)
      × IsFree (alloc_page p).1 []
      × IsZeroed p.page_end p.words (Pages.words (alloc_page p).1)
unfolding alloc_page
alloc_page-fresh p free room =
    let r : Pages = record p {
      npages = (p.npages + 1) % u32_mod;
      page_end = (p.page_end + page_size) % u32_mod;
    } in
    let (same, zeroed) = zero_page-IsZeroed p.page_end r in
    rw (eq→== p.page_free 0 free.chain) (
      refl,
      omega (arith, same.0),
      record { chain = rw same.1 free.chain; aligned = tt; below = tt; apart = tt },
      zeroed,
    )

-- Freeing an aligned page below `page_end` that is not free, while pages are counted as allocated,
-- succeeds; the page is the first free page from then on.
pub free_page-IsFree :
    (p : Pages) (a : ℕ) (fs : List ℕ)
    → IsFree p fs
    → 0 < p.npages
    → a ≢ 0
    → a % page_size ≡ 0
    → a < p.page_end
    → All (λ x. a ≢ x) fs
    → (q : Pages) × (free_page p a ≡ done q) × (q.npages ≡ p.npages - 1) × IsFree q (a ∷ fs)
unfolding free_page
free_page-IsFree p a fs free used n al lt apart =
    let q : Pages = record (store p a p.page_free) { npages = p.npages - 1; page_free = a } in
    (
      q,
      rw (lt→ltb 0 p.npages used) refl,
      refl,
      record {
        chain = (
          refl,
          n,
          rw (update_self p.words a p.page_free) (
              IsChain-frame p.words q.words p.page_free fs
                (All-map (λ x. a ≢ x) (λ x. q.words x ≡ p.words x) fs
                  (λ x d. update-ne p.words a x _ d) apart)
                free.chain),
        );
        aligned = (al, free.aligned);
        below = (lt, free.below);
        apart = (apart, free.apart);
      },
    )
