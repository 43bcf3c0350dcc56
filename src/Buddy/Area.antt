-- ===== src/Buddy/Area.antt =====
-- A new area keeps the invariant; a block that is allocated can be freed.
use adelaideos.Common.{
  ℕ, ◌+◌, ◌*◌, ◌^◌, ◌%◌, ◌≤◌, ◌<◌, ◌≡◌, ◌≢◌, refl, sym, ap, ◌∙◌, List, [], ◌∷◌, some, update,
  update_self, update-ne, eq_or_ne, inl, inr, done, Distinct, arith,
}
use adelaideos.Buddy.{BlockInfo, MemArea, empty, buddy_init, buddy_alloc, buddy_free}
use adelaideos.Buddy.FreeList.{Chain}
use adelaideos.Buddy.Tiles.{AreTiles, update-AreTiles}
use adelaideos.Buddy.Entries.{Hold}
use adelaideos.Buddy.Heap.{IsHeap}
use adelaideos.Buddy.Split.{SameUsed}
use adelaideos.Buddy.Alloc.{free_block}
use adelaideos.Buddy.Take.{Takes}
use adelaideos.Buddy.Request.{buddy_alloc-IsHeap}
use adelaideos.Buddy.Release.{Gives, buddy_free-IsHeap}

abbrev no_block : ℕ → BlockInfo
no_block i = free_block 0

-- The lists of a new area: one block.
abbrev pub first_lists : ℕ → ℕ → List ℕ
first_lists size = update (λ _. []) size (0 ∷ [])

init-AreLists :
    (size : ℕ) (links : ℕ → ℕ) (n : ℕ)
    → Chain (update links 0 empty) (update (λ _. empty) size 0 n) (first_lists size n)
init-AreLists size links n = elim (eq_or_ne size n) [
  | inl e ↦
      rw (← e, update_self (λ _. empty) size 0, update_self {A = List ℕ} (λ _. []) size (0 ∷ []))
        (refl, (λ z. omega (arith, z)), tt, update_self links 0 empty)
  | inr d ↦
      rw (update-ne (λ _. empty) size n 0 d, update-ne {A = List ℕ} (λ _. []) size n (0 ∷ []) d)
        refl
]

init-Distinct : (size a b : ℕ) → a ≢ b → Distinct (first_lists size a) (first_lists size b)
init-Distinct size a b n = elim (eq_or_ne size a) [
  | inl e ↦
      rw
        (
          ← e,
          update_self {A = List ℕ} (λ _. []) size (0 ∷ []),
          update-ne {A = List ℕ} (λ _. []) size b (0 ∷ []) (λ f. n (sym e ∙ f)),
        )
        (tt, tt)
  | inr d ↦ rw (update-ne {A = List ℕ} (λ _. []) size a (0 ∷ []) d) tt
]

init-AreTiles : (size : ℕ) → 8 ≤ size → AreTiles 8 size (update no_block 0 (free_block size))
init-AreTiles size lo =
    let none : AreTiles 8 size no_block = record {
      place = λ _ live. absurd (omega (arith, live));
      clear = λ _ live. absurd (omega (arith, live));
      unused = λ _ _. refl;
    } in
    update-AreTiles 8 size no_block 0 (free_block size) none (record {
      place = λ _. record {
        above = lo;
        below = omega arith;
        number = 0;
        aligned = omega arith;
        within = omega arith;
      };
      clear = λ _ _ _ _. refl;
      outside = λ _ _ live. absurd (omega (arith, live));
      unused = λ _. refl;
    })

init-Hold :
    (size : ℕ) → 8 ≤ size → Hold 8 (update no_block 0 (free_block size)) (first_lists size) []
init-Hold size lo =
    let here = update_self no_block 0 (free_block size) in
    record {
      sound = λ n. elim (eq_or_ne size n) [
        | inl e ↦
            rw (← e, update_self {A = List ℕ} (λ _. []) size (0 ∷ []))
              ((0, refl, refl, refl, omega arith, tt), tt)
        | inr d ↦ rw (update-ne {A = List ℕ} (λ _. []) size n (0 ∷ []) d) tt
      ];
      complete = λ i live idle others. elim (eq_or_ne 0 i) [
        | inl e ↦ rw (← e, update_self {A = List ℕ} (λ _. []) size (0 ∷ [])) ([], [], refl)
        | inr d ↦ absurd (
            let z = ap (λ b. b.sizem) (update-ne no_block 0 i (free_block size) d) in
            omega (arith, live, z))
      ];
    }

-- A new area of 2 ^ 8 to 2 ^ 31 bytes keeps the invariant: it is one free block.
pub buddy_init-IsHeap :
    (size membase : ℕ) (links : ℕ → ℕ)
    → 8 ≤ size
    → size ≤ 31
    → IsHeap (buddy_init size membase links) (first_lists size) []
unfolding buddy_init
buddy_init-IsHeap size membase links lo hi =
    let fits : size % 2 ^ 7 ≡ size = omega arith in
    record {
      lists = record { chain = init-AreLists size links; apart = init-Distinct size };
      tiles = rw fits (init-AreTiles size lo);
      hold = rw fits (init-Hold size lo);
      granule = omega arith;
      ordered = lo;
      short = hi;
    }

given_back : (ma ma1 ma2 : MemArea) (i m : ℕ) → Takes ma ma1 i m → Gives ma1 ma2 i → SameUsed ma ma2
given_back ma ma1 ma2 i m t g = record {
  lower = g.lower ∙ t.lower;
  upper = g.upper ∙ t.upper;
  mem = g.mem ∙ t.mem;
  kept = λ k u.
      let n : i ≢ k = (λ e. cc (t.idle, u, ap (λ z. (ma.blocks z).used) e)) in
      g.kept k n (ap (λ b. b.used) (t.kept k u) ∙ u) ∙ t.kept k u;
  fresh = λ k u. elim (eq_or_ne i k) [
    | inl e ↦ cc (g.given, u, ap (λ z. (ma2.blocks z).used) e)
    | inr n ↦ t.fresh k n (g.fresh k u)
  ];
}

-- What `buddy_alloc` returns can be given to `buddy_free`: that succeeds, the invariant holds, and the
-- blocks in use are those from before, with the same sizes.
pub buddy_free-buddy_alloc :
    (ma : MemArea) (free : ℕ → List ℕ) (nbytes a : ℕ) (ma1 : MemArea)
    → IsHeap ma free []
    → nbytes < 2 ^ 31
    → buddy_alloc ma nbytes ≡ done (a, ma1)
    → (ma2 : MemArea) × (free2 : ℕ → List ℕ) × (buddy_free ma1 (some a) ≡ done ma2)
      × IsHeap ma2 free2 []
      × SameUsed ma ma2
buddy_free-buddy_alloc ma free nbytes a ma1 h small run =
    elim (buddy_alloc-IsHeap ma free nbytes h small) [
      | inl (fails, others) ↦ absurd (cc (run, fails))
      | inr (ma', free', i, m, gets, fits, h', takes, inside, apart) ↦
          let same_address : a ≡ i * 2 ^ ma.lower + ma.mem = cc (run, gets) in
          let same_area : ma1 ≡ ma' = cc (run, gets) in
          let (ma2, free2, freed, h2, gives) =
            buddy_free-IsHeap ma' free' i h' (ap (λ b. b.used) takes.taken) in
          (
            ma2,
            free2,
            ap (λ s. buddy_free s (some a)) same_area
                ∙ ap (λ z. buddy_free ma' (some z)) same_address
                ∙ ap (λ z. buddy_free ma' (some (i * 2 ^ z + ma.mem))) (sym takes.lower)
                ∙ ap (λ z. buddy_free ma' (some (i * 2 ^ ma'.lower + z))) (sym takes.mem)
                ∙ freed,
            h2,
            given_back ma ma' ma2 i m takes gives,
          )
    ]
