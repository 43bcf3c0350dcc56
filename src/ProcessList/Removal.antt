-- ===== src/ProcessList/Removal.antt =====
-- Taking a process out of a list, wherever it stands.
use adelaideos.Common.{
  ℕ, ◌≡◌, ◌≢◌, refl, sym, List, [], ◌∷◌, ◌++◌, Bool, false, Option, none, some, All, arith, ◌==◌,
  if◌then◌else◌, All-append-left, All-append-right, All-append, ne→==, All-map, All-map₂,
}
use adelaideos.Kernel.{Process, ProcessList}
use adelaideos.ProcessList.{list_remove, points_to}
use adelaideos.ProcessList.Linked.{Linked, IsList, IsUnlinked, SameLinks, Linked-frame}

abbrev refers : Option ℕ → ℕ → Bool
refers none y = false
refers (some z) y = z == y

-- A table in which the neighbours of `x` point past it.
abbrev Bypasses : (ℕ → Process) → (ℕ → Process) → ℕ → Type 0
Bypasses t u x =
    (y : ℕ)
    → x ≢ y
    → ((u y).prev ≡ (if refers (t x).next y then (t x).prev else (t y).prev))
      × ((u y).next ≡ (if refers (t x).prev y then (t x).next else (t y).next))

list_remove-Bypasses :
    (t : ℕ → Process) (ll : ProcessList) (x : ℕ) (a b : Option ℕ)
    → (t x).prev ≡ a
    → (t x).next ≡ b
    → refers a x ≡ false
    → refers b x ≡ false
    → Bypasses t (list_remove t ll x).table x × IsUnlinked (list_remove t ll x).table x
unfolding list_remove
list_remove-Bypasses t ll x none none ea eb na nb = (λ y ne. ground arith, ground arith)
list_remove-Bypasses t ll x none (some b) ea eb na nb = (λ y ne. ground arith, ground arith)
list_remove-Bypasses t ll x (some a) none ea eb na nb = (λ y ne. ground arith, ground arith)
list_remove-Bypasses t ll x (some a) (some b) ea eb na nb = (λ y ne. ground arith, ground arith)

module _ (t : ℕ → Process) where
  last_ne :
      (p f l : Option ℕ) (y : ℕ) (ys : List ℕ) (x : ℕ)
      → Linked t p f l (y ∷ ys)
      → All (λ z. x ≢ z) (y ∷ ys)
      → refers l x ≡ false
  last_ne p f l y [] x h out = rw h.3.1 (ground arith)
  last_ne p f l y (z ∷ zs) x h out = last_ne (some y) (t y).next l z zs x h.3 out.1

  next_ne :
      (p f l : Option ℕ) (xs ys : List ℕ) (x w : ℕ)
      → Linked t p f l (xs ++ x ∷ ys)
      → All (λ z. w ≢ z) ys
      → refers (t x).next w ≡ false
  next_ne p f l [] [] x w h out = rw h.3.0
  next_ne p f l [] (y ∷ ys) x w h out = rw h.3.0 (ground arith)
  next_ne p f l (v ∷ vs) ys x w h out = next_ne (some v) (t v).next l vs ys x w h.3 out

  prev_ne :
      (p f l : Option ℕ) (v : ℕ) (vs ys : List ℕ) (x w : ℕ)
      → Linked t p f l (v ∷ vs ++ x ∷ ys)
      → All (λ z. w ≢ z) (v ∷ vs)
      → refers (t x).prev w ≡ false
  prev_ne p f l v [] ys x w h out = rw h.3.1 (ground arith)
  prev_ne p f l v (z ∷ zs) ys x w h out = prev_ne (some v) (t v).next l z zs ys x w h.3 out.1

All-trivial : (xs : List ℕ) → All (λ y. refers none y ≡ false) xs
All-trivial [] = tt
All-trivial (x ∷ xs) = (refl, All-trivial xs)

refers-some : (w : ℕ) (xs : List ℕ) → All (λ y. w ≢ y) xs → All (λ y. refers (some w) y ≡ false) xs
refers-some w xs h = All-map (λ y. w ≢ y) (λ y. refers (some w) y ≡ false) xs (ne→== w) h

module _ (t u : ℕ → Process) (x : ℕ) (past : Bypasses t u x) where
  spared :
      (y : ℕ) → x ≢ y → refers (t x).next y ≡ false → refers (t x).prev y ≡ false → SameLinks t u y
  spared y ne a b = ground (arith, past y ne)

  Linked-bypass :
      (p f l : Option ℕ) (xs ys : List ℕ)
      → Linked t p f l (xs ++ x ∷ ys)
      → All (λ y. refers p y ≡ false) (xs ++ x ∷ ys)
      → Linked u p (points_to f x (t x).next) (points_to l x (t x).prev) (xs ++ ys)
  Linked-bypass p f l [] [] h out =
      let last : points_to l x (t x).prev ≡ p = ground arith in
      let first : points_to f x (t x).next ≡ none = ground arith in (first, last)
  Linked-bypass p f l [] (y ∷ ys) h out =
      let e : (t x).next ≡ some y = h.3.0 in
      let ne : x ≢ y = h.2.0 in
      let first : points_to f x (t x).next ≡ some y = ground arith in
      let prev : (u y).prev ≡ p = ground (arith, past y ne) in
      let next : (u y).next ≡ (t y).next = ground (arith, past y ne, out.1.0) in
      let last : points_to l x (t x).prev ≡ l =
        ground (arith, last_ne t (some x) (t x).next l y ys x h.3 h.2) in
      let same : All (SameLinks t u) ys =
        All-map₂ (λ z. (x ≢ z) × (y ≢ z)) (λ z. refers p z ≡ false) (SameLinks t u) ys
          (λ z a b. spared z a.0 (rw e (ne→== y z a.1)) (rw h.1 b))
          (All-map₂ (λ z. x ≢ z) (λ z. y ≢ z) (λ z. (x ≢ z) × (y ≢ z)) ys (λ z a b. (a, b)) h.2.1
            h.3.2)
          out.1.1 in
      (first, prev, h.3.2, rw (next, last) (Linked-frame t u (some y) (t y).next l ys h.3.3 same))
  Linked-bypass p f l (w ∷ []) ys h out =
      let ne : x ≢ w = λ e. h.2.0 (sym e) in
      let first : points_to f x (t x).next ≡ some w = ground arith in
      let fresh : refers (t x).next w ≡ false =
        next_ne t (some w) (t w).next l [] ys x w h.3 h.2.1 in
      let prev : (u w).prev ≡ p = ground (arith, past w ne) in
      let next : (u w).next ≡ points_to (t w).next x (t x).next = ground (arith, past w ne) in
      let ih = Linked-bypass (some w) (t w).next l [] ys h.3 (refers-some w (x ∷ ys) h.2) in
      (first, prev, h.2.1, rw next ih)
  Linked-bypass p f l (w ∷ v ∷ vs) ys h out =
      let apart : All (λ y. w ≢ y) (x ∷ ys) = All-append-right (λ y. w ≢ y) vs (x ∷ ys) h.2.1 in
      let before : All (λ y. w ≢ y) vs = All-append-left (λ y. w ≢ y) vs (x ∷ ys) h.2.1 in
      let ne : x ≢ w = λ e. apart.0 (sym e) in
      let nv : v ≢ x = (All-append-right (λ y. v ≢ y) vs (x ∷ ys) h.3.2).0 in
      let first : points_to f x (t x).next ≡ some w = ground arith in
      let fresh : refers (t x).next w ≡ false =
        next_ne t (some w) (t w).next l (v ∷ vs) ys x w h.3 apart.1 in
      let back : refers (t x).prev w ≡ false =
        prev_ne t (some w) (t w).next l v vs ys x w h.3 (h.2.0, before) in
      let prev : (u w).prev ≡ p = ground (arith, past w ne) in
      let next : (u w).next ≡ points_to (t w).next x (t x).next = ground (arith, past w ne) in
      let ih =
        Linked-bypass (some w) (t w).next l (v ∷ vs) ys h.3
          (refers-some w (v ∷ vs ++ x ∷ ys) h.2) in
      (first, prev, (h.2.0, All-append (λ y. w ≢ y) vs ys before apart.1), rw next ih)

mid_ne :
    (t : ℕ → Process) (p f l : Option ℕ) (xs ys : List ℕ) (x : ℕ)
    → Linked t p f l (xs ++ x ∷ ys)
    → refers p x ≡ false
    → (refers (t x).prev x ≡ false) × (refers (t x).next x ≡ false)
mid_ne t p f l [] ys x h out = (rw h.1 out, next_ne t p f l [] ys x x h h.2)
mid_ne t p f l (w ∷ ws) ys x h out =
    mid_ne t (some w) (t w).next l ws ys x h.3
      (ne→== w x (All-append-right (λ y. w ≢ y) ws (x ∷ ys) h.2).0)

removed :
    (t : ℕ → Process) (ll : ProcessList) (xs ys : List ℕ) (obj : ℕ)
    → IsList t ll (xs ++ obj ∷ ys)
    → Bypasses t (list_remove t ll obj).table obj × IsUnlinked (list_remove t ll obj).table obj
removed t ll xs ys obj h =
    let apart = mid_ne t none ll.first ll.last xs ys obj h refl in
    list_remove-Bypasses t ll obj (t obj).prev (t obj).next refl refl apart.0 apart.1

list_remove-head :
    (t : ℕ → Process) (ll : ProcessList) (obj : ℕ)
    → (list_remove t ll obj).head ≡ record {
      first = points_to ll.first obj (t obj).next;
      last = points_to ll.last obj (t obj).prev;
    }
unfolding list_remove
list_remove-head t ll obj = refl

-- A member of a well formed list is taken out wherever it stands: the others keep their order in a
-- list that is linked both ways, and its own links are cleared.
pub list_remove-IsList :
    (t : ℕ → Process) (ll : ProcessList) (xs ys : List ℕ) (obj : ℕ)
    → IsList t ll (xs ++ obj ∷ ys)
    → IsList (list_remove t ll obj).table (list_remove t ll obj).head (xs ++ ys)
      × IsUnlinked (list_remove t ll obj).table obj
list_remove-IsList t ll xs ys obj h =
    let r = removed t ll xs ys obj h in
    (
      rw (list_remove-head t ll obj) (
          Linked-bypass t (list_remove t ll obj).table obj r.0 none ll.first ll.last xs ys h
            (All-trivial (xs ++ obj ∷ ys))),
      r.1,
    )

before_ne :
    (t : ℕ → Process) (ll : ProcessList) (xs ys : List ℕ) (x w : ℕ)
    → IsList t ll (xs ++ x ∷ ys)
    → All (λ z. w ≢ z) xs
    → refers (t x).prev w ≡ false
before_ne t ll [] ys x w h out = rw h.1
before_ne t ll (v ∷ vs) ys x w h out = prev_ne t none ll.first ll.last v vs ys x w h out

-- The links of the processes outside the list stay as they are.
pub list_remove-SameLinks :
    (t : ℕ → Process) (ll : ProcessList) (xs ys : List ℕ) (obj y : ℕ)
    → IsList t ll (xs ++ obj ∷ ys)
    → All (λ z. y ≢ z) (xs ++ obj ∷ ys)
    → SameLinks t (list_remove t ll obj).table y
list_remove-SameLinks t ll xs ys obj y h out =
    let r = removed t ll xs ys obj h in
    let right = All-append-right (λ z. y ≢ z) xs (obj ∷ ys) out in
    spared t (list_remove t ll obj).table obj r.0 y (λ e. right.0 (sym e))
      (next_ne t none ll.first ll.last xs ys obj y h right.1)
      (before_ne t ll xs ys obj y h (All-append-left (λ z. y ≢ z) xs (obj ∷ ys) out))
