-- ===== src/Buddy/FreeList.antt =====
-- The free lists of the buddy allocator as lists of offsets.
use adelaideos.Common.{
  ℕ, zero, suc, ◌+◌, ◌-◌, ◌^◌, ◌≤◌, ◌<◌, ◌≡◌, ◌≢◌, refl, sym, subst, ◌∙◌, List, [], ◌∷◌, ◌++◌,
  false, Option, none, some, All, All-map, All-append-left, All-drop, arith, ◌==◌, update,
  update_self, update-ne, eq_or_ne, inl, inr, length, done, eq→==, ne→==, le→leb, Distinct,
  Distinct-swap,
}
use adelaideos.Buddy.{
  MemArea, empty, read_ptr, write_ptr, remove_loop, remove_from_freelist, add_to_freelist,
}

-- From `h` the links lead through the distinct blocks `xs` to `empty`.
abbrev pub Chain : (ℕ → ℕ) → ℕ → List ℕ → Type 0
Chain links h [] = h ≡ empty
Chain links h (x ∷ xs) = (h ≡ x) × (x ≢ empty) × All (λ y. x ≢ y) xs × Chain links (links x) xs

-- The free lists are the lists `free m`, and no block is in two of them.
pub record AreLists (ma : MemArea) (free : ℕ → List ℕ) : Type 0 where
  pub chain : (m : ℕ) → Chain ma.links (ma.freelist m) (free m)
  pub apart : (m n : ℕ) → m ≢ n → Distinct (free m) (free n)

Chain-frame :
    (links new : ℕ → ℕ) (h : ℕ) (xs : List ℕ)
    → Chain links h xs
    → All (λ x. new x ≡ links x) xs
    → Chain new h xs
Chain-frame links new h [] c same = c
Chain-frame links new h (x ∷ xs) c same =
    (c.0, c.1, c.2, rw same.0 (Chain-frame links new (links x) xs c.3 same.1))

abbrev last : ℕ → List ℕ → ℕ
last w [] = w
last w (v ∷ vs) = last v vs

abbrev prev_ptr : Option ℕ → List ℕ → Option ℕ
prev_ptr ptr [] = ptr
prev_ptr ptr (w ∷ ws) = some (last w ws)

prev_ptr-cons :
    (ptr : Option ℕ) (w : ℕ) (ws : List ℕ) → prev_ptr (some w) ws ≡ prev_ptr ptr (w ∷ ws)
prev_ptr-cons ptr w [] = refl
prev_ptr-cons ptr w (v ∷ vs) = refl

remove_loop_lem :
    (fuel : ℕ) (ma : MemArea) (m x : ℕ) (ptr : Option ℕ) (xs ys : List ℕ)
    → Chain ma.links (read_ptr ma m ptr) (xs ++ x ∷ ys)
    → length xs < fuel
    → remove_loop fuel ma m x ptr ≡ done (write_ptr ma m (prev_ptr ptr xs) (ma.links x))
unfolding remove_loop
remove_loop_lem zero ma m x ptr xs ys c lt = absurd (omega arith)
remove_loop_lem (suc fuel) ma m x ptr [] ys c lt =
    let r = read_ptr ma m ptr in
    let live : (empty == r) ≡ false = ne→== empty r (λ e. c.1 (sym c.0 ∙ sym e)) in
    rw (live, eq→== r x c.0, remove_loop) (rw c.0 refl)
remove_loop_lem (suc fuel) ma m x ptr (w ∷ ws) ys c lt =
    let r = read_ptr ma m ptr in
    let ne = (All-drop (λ y. w ≢ y) ws ys x c.2).0 in
    let live : (empty == r) ≡ false = ne→== empty r (λ e. c.1 (sym c.0 ∙ sym e)) in
    let ih = remove_loop_lem fuel ma m x (some w) ws ys (unfold read_ptr in c.3) (omega arith) in
    rw (live, ne→== r x (λ e. ne (sym c.0 ∙ e)), remove_loop)
      (rw c.0 (ih ∙ rw (prev_ptr-cons ptr w ws) refl))

last_ne : (u w : ℕ) (ws : List ℕ) → All (λ y. u ≢ y) (w ∷ ws) → u ≢ last w ws
last_ne u w [] h = h.0
last_ne u w (v ∷ vs) h = last_ne u v vs h.1

-- Taking `x` out: the block before it, the last of `w ∷ ws`, is linked to the one behind it.
Chain-bypass :
    (links : ℕ → ℕ) (h w x : ℕ) (ws ys : List ℕ)
    → Chain links h (w ∷ ws ++ x ∷ ys)
    → Chain (update links (last w ws) (links x)) h (w ∷ ws ++ ys)
Chain-bypass links h w x [] ys c =
    let new = update links w (links x) in
    let same : All (λ y. new y ≡ links y) ys =
      All-map (λ y. w ≢ y) (λ y. new y ≡ links y) ys (λ y ne. update-ne links w y (links x) ne)
        c.2.1 in
    (
      c.0,
      c.1,
      c.2.1,
      rw (update_self links w (links x)) (Chain-frame links new (links x) ys c.3.3 same),
    )
Chain-bypass links h w x (v ∷ vs) ys c =
    let out = All-drop (λ y. w ≢ y) (v ∷ vs) ys x c.2 in
    let before = All-append-left (λ y. w ≢ y) (v ∷ vs) ys out.1 in
    let keep = update-ne links (last v vs) w (links x) (λ e. last_ne w v vs before (sym e)) in
    (c.0, c.1, out.1, rw keep (Chain-bypass links (links w) v x vs ys c.3))

-- What the two operations leave alone.
pub record SameBlocks (ma ma' : MemArea) : Type 0 where
  pub lower : ma'.lower ≡ ma.lower
  pub upper : ma'.upper ≡ ma.upper
  pub mem : ma'.mem ≡ ma.mem
  pub blocks : ma'.blocks ≡ ma.blocks

-- A block that is in no free list.
abbrev pub IsAbsent : (ℕ → List ℕ) → ℕ → Type 0
IsAbsent free x = (m : ℕ) → All (λ y. x ≢ y) (free m)

update_cases {ℓ κ} :
    {A : Type ℓ} (P : ℕ → A → Type κ) (f : ℕ → A) (i : ℕ) (a : A)
    → P i a
    → ((j : ℕ) → i ≢ j → P j (f j))
    → (j : ℕ) → P j (update f i a j)
update_cases P f i a new old j = elim (eq_or_ne i j) [
  | inl e ↦ subst (λ z. P z (update f i a z)) e (rw (update_self f i a) new)
  | inr ne ↦ rw (update-ne f i j a ne) (old j ne)
]

apart_update :
    (free : ℕ → List ℕ) (m : ℕ) (xs : List ℕ)
    → ((a b : ℕ) → a ≢ b → Distinct (free a) (free b))
    → ((n : ℕ) → m ≢ n → Distinct xs (free n))
    → (a b : ℕ) → a ≢ b
    → Distinct (update free m xs a) (update free m xs b)
apart_update free m xs apart new a b ne = elim (eq_or_ne m a) [
  | inl e ↦
      let n : m ≢ b = λ e'. ne (sym e ∙ e') in
      rw (← e, update_self free m xs, update-ne free m b xs n) (new b n)
  | inr na ↦ elim (eq_or_ne m b) [
    | inl e ↦
        rw (← e, update_self free m xs, update-ne free m a xs na)
          (Distinct-swap xs (free a) (new a na))
    | inr nb ↦ rw (update-ne free m a xs na, update-ne free m b xs nb) (apart a b ne)
  ]
]

-- `add_to_freelist` puts an absent block that fits into the area at the head of its list, and does
-- not touch the others.
pub add_to_freelist-AreLists :
    (ma : MemArea) (free : ℕ → List ℕ) (m x : ℕ)
    → AreLists ma free
    → IsAbsent free x
    → x ≢ empty
    → x + 2 ^ m ≤ 2 ^ ma.upper
    → (ma' : MemArea) × (add_to_freelist ma m x ≡ done ma')
      × AreLists ma' (update free m (x ∷ free m))
      × SameBlocks ma ma'
unfolding add_to_freelist
add_to_freelist-AreLists ma free m x h out live fits =
    let new = update ma.links x (ma.freelist m) in
    let frame = λ (n : ℕ). Chain-frame ma.links new (ma.freelist n) (free n) (h.chain n) (
      All-map (λ y. x ≢ y) (λ y. new y ≡ ma.links y) (free n)
        (λ y ne. update-ne ma.links x y (ma.freelist m) ne) (out n)) in
    (
      record ma { freelist = update ma.freelist m x; links = new },
      rw (le→leb (x + 2 ^ m) (2 ^ ma.upper) fits) refl,
      record {
        chain = λ n. elim (eq_or_ne m n) [
          | inl e ↦
              rw (← e, update_self free m (x ∷ free m), update_self ma.freelist m x)
                (refl, live, out m, rw (update_self ma.links x (ma.freelist m)) (frame m))
          | inr ne ↦
              rw (update-ne free m n (x ∷ free m) ne, update-ne ma.freelist m n x ne) (frame n)
        ];
        apart = apart_update free m (x ∷ free m) h.apart (λ n ne. (out n, h.apart m n ne));
      },
      record { lower = refl; upper = refl; mem = refl; blocks = refl },
    )

last_all {κ} : (P : ℕ → Type κ) (w : ℕ) (ws : List ℕ) → All P (w ∷ ws) → P (last w ws)
last_all P w [] h = h.0
last_all P w (v ∷ vs) h = last_all P v vs h.1

write_ptr-SameBlocks :
    (ma : MemArea) (m : ℕ) (ptr : Option ℕ) (v : ℕ) → SameBlocks ma (write_ptr ma m ptr v)
unfolding write_ptr
write_ptr-SameBlocks ma m none v = record { lower = refl; upper = refl; mem = refl; blocks = refl }
write_ptr-SameBlocks ma m (some b) v = record {
  lower = refl;
  upper = refl;
  mem = refl;
  blocks = refl;
}

removed-Chain :
    (ma : MemArea) (free : ℕ → List ℕ) (m x : ℕ) (xs ys : List ℕ)
    → AreLists ma free
    → free m ≡ xs ++ x ∷ ys
    → (n : ℕ)
    → Chain
        (write_ptr ma m (prev_ptr none xs) (ma.links x)).links
        ((write_ptr ma m (prev_ptr none xs) (ma.links x)).freelist n)
        (update free m (xs ++ ys) n)
unfolding write_ptr
removed-Chain ma free m x [] ys h e n = elim (eq_or_ne m n) [
  | inl same ↦
      rw (← same, update_self free m ys, update_self ma.freelist m (ma.links x))
        (subst (Chain ma.links (ma.freelist m)) e (h.chain m)).3
  | inr ne ↦ rw (update-ne free m n ys ne, update-ne ma.freelist m n (ma.links x) ne) (h.chain n)
]
removed-Chain ma free m x (w ∷ ws) ys h e n = elim (eq_or_ne m n) [
  | inl same ↦
      rw (← same, update_self free m (w ∷ ws ++ ys))
        (Chain-bypass ma.links (ma.freelist m) w x ws ys
          (subst (Chain ma.links (ma.freelist m)) e (h.chain m)))
  | inr ne ↦
      let new = update ma.links (last w ws) (ma.links x) in
      let d : Distinct (w ∷ ws ++ x ∷ ys) (free n) =
        subst (λ zs. Distinct zs (free n)) e (h.apart m n ne) in
      let out =
        last_all (λ z. All (λ y. z ≢ y) (free n)) w ws
          (All-append-left (λ z. All (λ y. z ≢ y) (free n)) (w ∷ ws) (x ∷ ys) d) in
      rw (update-ne free m n (w ∷ ws ++ ys) ne) (
        Chain-frame ma.links new (ma.freelist n) (free n) (h.chain n) (
          All-map (λ y. last w ws ≢ y) (λ y. new y ≡ ma.links y) (free n)
            (λ y ny. update-ne ma.links (last w ws) y (ma.links x) ny) out))
]

-- `remove_from_freelist` takes a block out of its list, wherever it stands in it, and does not touch
-- the others; the list is not longer than the area has blocks.
pub remove_from_freelist-AreLists :
    (ma : MemArea) (free : ℕ → List ℕ) (m x : ℕ) (xs ys : List ℕ)
    → AreLists ma free
    → free m ≡ xs ++ x ∷ ys
    → length xs ≤ 2 ^ (ma.upper - ma.lower)
    → (ma' : MemArea) × (remove_from_freelist ma m x ≡ done ma')
      × AreLists ma' (update free m (xs ++ ys))
      × SameBlocks ma ma'
unfolding remove_from_freelist
remove_from_freelist-AreLists ma free m x xs ys h e short = (
  write_ptr ma m (prev_ptr none xs) (ma.links x),
  remove_loop_lem (2 ^ (ma.upper - ma.lower) + 1) ma m x none xs ys
      (unfold read_ptr in subst (Chain ma.links (ma.freelist m)) e (h.chain m)) (omega arith),
  record {
    chain = removed-Chain ma free m x xs ys h e;
    apart = apart_update free m (xs ++ ys) h.apart (λ n ne.
        (All-drop (λ z. All (λ y. z ≢ y) (free n)) xs ys x
          (subst (λ zs. Distinct zs (free n)) e (h.apart m n ne))).1);
  },
  write_ptr-SameBlocks ma m (prev_ptr none xs) (ma.links x),
)
