-- ===== src/ProcessList/Linked.antt =====
-- What a process list stands for, and the effect of the two macros on it.
use adelaideos.Common.{
  ℕ, ◌≡◌, ◌≢◌, refl, ap, List, [], ◌∷◌, Option, none, some, All, arith, All-map₂,
}
use adelaideos.Kernel.{Process, ProcessList}
use adelaideos.ProcessList.{list_add}

-- From `f` the `next` fields lead through the distinct processes `xs` to `l`, the last, and each
-- `prev` leads back; `p` is what stands before `f`.
abbrev pub Linked : (ℕ → Process) → Option ℕ → Option ℕ → Option ℕ → List ℕ → Type 0
Linked t p f l [] = (f ≡ none) × (l ≡ p)
Linked t p f l (x ∷ xs) =
    (f ≡ some x) × ((t x).prev ≡ p) × All (λ y. x ≢ y) xs × Linked t (some x) (t x).next l xs

abbrev pub IsList : (ℕ → Process) → ProcessList → List ℕ → Type 0
IsList t ll xs = Linked t none ll.first ll.last xs

-- A process in no list.
abbrev pub IsUnlinked : (ℕ → Process) → ℕ → Type 0
IsUnlinked t x = ((t x).prev ≡ none) × ((t x).next ≡ none)

abbrev pub SameLinks : (ℕ → Process) → (ℕ → Process) → ℕ → Type 0
SameLinks t u y = ((u y).prev ≡ (t y).prev) × ((u y).next ≡ (t y).next)

-- A list survives a change that spares the links of its members.
pub Linked-frame :
    (t u : ℕ → Process) (p f l : Option ℕ) (xs : List ℕ)
    → Linked t p f l xs
    → All (SameLinks t u) xs
    → Linked u p f l xs
Linked-frame t u p f l [] h same = h
Linked-frame t u p f l (x ∷ xs) h same =
    (h.0, cc, h.2, rw same.0.1 (Linked-frame t u (some x) (t x).next l xs h.3 same.1))

-- The first element's `prev` is the only link that leads out of the list on the left.
Linked-reroot :
    (t u : ℕ → Process) (p q f l : Option ℕ) (x : ℕ) (xs : List ℕ)
    → Linked t p f l (x ∷ xs)
    → (u x).prev ≡ q
    → (u x).next ≡ (t x).next
    → All (SameLinks t u) xs
    → Linked u q f l (x ∷ xs)
Linked-reroot t u p q f l x xs h e n same =
    (h.0, e, h.2, rw n (Linked-frame t u (some x) (t x).next l xs h.3 same))

list_add-cons :
    (t : ℕ → Process) (ll : ProcessList) (x obj : ℕ)
    → ll.first ≡ some x
    → obj ≢ x
    → IsUnlinked t obj
    → let r = list_add t ll obj in
      (r.head ≡ record { first = some obj; last = ll.last })
      × ((r.table obj).prev ≡ none)
      × ((r.table obj).next ≡ some x)
      × ((r.table x).prev ≡ some obj)
      × ((r.table x).next ≡ (t x).next)
      × ((y : ℕ) → obj ≢ y → x ≢ y → SameLinks t r.table y)
unfolding list_add
list_add-cons t ll x obj e ne free =
    rw (e, list_add)
      (refl, ground arith, ground arith, ground arith, ground arith, λ y a b. ground arith)

-- A process in no list is put at the head of a well formed list: the list reads as before behind
-- it, in both directions.
pub list_add-IsList :
    (t : ℕ → Process) (ll : ProcessList) (xs : List ℕ) (obj : ℕ)
    → IsList t ll xs
    → IsUnlinked t obj
    → All (λ y. obj ≢ y) xs
    → IsList (list_add t ll obj).table (list_add t ll obj).head (obj ∷ xs)
list_add-IsList t ll [] obj h free out =
    unfold list_add in rw (h.0, list_add) (refl, free.0, tt, (free.1, refl))
list_add-IsList t ll (x ∷ xs) obj h free out =
    let r = list_add-cons t ll x obj h.0 out.0 free in
    let same =
      All-map₂ (λ y. obj ≢ y) (λ y. x ≢ y) (SameLinks t (list_add t ll obj).table) xs r.5 out.1
        h.2 in
    let rest = Linked-frame t (list_add t ll obj).table (some x) (t x).next ll.last xs h.3 same in
    (ap (λ g. g.first) r.0, r.1, out, (r.2, r.3, h.2, rw (r.4, ap (λ g. g.last) r.0) rest))

-- The links of the processes outside the list stay as they are.
pub list_add-SameLinks :
    (t : ℕ → Process) (ll : ProcessList) (xs : List ℕ) (obj y : ℕ)
    → IsList t ll xs
    → IsUnlinked t obj
    → All (λ z. obj ≢ z) xs
    → obj ≢ y
    → All (λ z. z ≢ y) xs
    → SameLinks t (list_add t ll obj).table y
list_add-SameLinks t ll [] obj y h free out ne others =
    unfold list_add in rw (h.0, list_add) (refl, refl)
list_add-SameLinks t ll (x ∷ xs) obj y h free out ne others =
    (list_add-cons t ll x obj h.0 out.0 free).5 y ne others.0
