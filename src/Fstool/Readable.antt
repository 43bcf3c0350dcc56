-- ===== src/Fstool/Readable.antt =====
-- The trees that the tool can read to the end.
use native.Mathlib.Numerals.{add-one}
use adelaideos.Common.{
  ℕ, suc, ◌<◌, ◌≡◌, ◌∙◌, ap, refl, inl, inr, true, false, List, [], ◌∷◌, All, length, ◌⊎◌, lt→ltb,
  ◌==◌, eq→==, ne→==, Bool-cases, arith, done, ◌>>◌,
}
use adelaideos.Libc.{strlen}
use adelaideos.Libc.Compare.{IsChar}
use adelaideos.Fstool.{
  HostStat, Node, dir, file, special, closed_dir, closed_file, no_stat, Listing, end, item,
  ignore_file, kept_type, join, whole_path, stat_node, check_dir, name_in_entry,
}
use adelaideos.Fstool.Reading.{strlen-strncpy}

-- stat, opendir and open succeed for a node and all below it, the paths fit into arrays of `max` bytes
-- with a NUL, and the names have at most 254 bytes, none of them NUL. What is ignored can be anything.
unfoldable mutual
  pub CanRead : ℕ → List ℕ → Node → Type 0
  CanRead max path (dir l) = CanReadAll max path l
  CanRead max path (file pieces) = Unit
  CanRead max path special = Unit
  CanRead max path closed_dir = ⊥
  CanRead max path closed_file = ⊥
  CanRead max path no_stat = ⊥

  pub CanReadAll : ℕ → List ℕ → Listing → Type 0
  CanReadAll max path end = Unit
  CanReadAll max path (item s n l) =
      ((ignore_file s.name ≡ true)
        ⊎ ((length (join path s.name) < max)
            × All IsChar s.name
            × (length s.name < 255)
            × CanRead max (join path s.name) n))
      × CanReadAll max path l

stat_node-CanRead :
    (max : ℕ) (path : List ℕ) (n : Node) → CanRead max path n → stat_node n ≡ done tt
unfolding CanRead
stat_node-CanRead max path (dir l) h = refl
stat_node-CanRead max path (file pieces) h = refl
stat_node-CanRead max path special h = refl
stat_node-CanRead max path closed_dir h = refl
stat_node-CanRead max path closed_file h = refl
stat_node-CanRead max path no_stat h = absurd h

check_dir-false :
    (max : ℕ) (path : List ℕ) (s : HostStat) (n : Node) (l : Listing)
    → ignore_file s.name ≡ false
    → check_dir max path (item s n l)
      ≡ (whole_path max path s.name >> stat_node n >> check_dir max path l)
unfolding check_dir
check_dir-false max path s n l e = rw (check_dir, e) refl

check_dir-true :
    (max : ℕ) (path : List ℕ) (s : HostStat) (n : Node) (l : Listing)
    → ignore_file s.name ≡ true
    → check_dir max path (item s n l) ≡ check_dir max path l
unfolding check_dir
check_dir-true max path s n l e = rw (check_dir, e) refl

pub check_dir-CanReadAll :
    (max : ℕ) (path : List ℕ) (l : Listing) → CanReadAll max path l → check_dir max path l ≡ done tt
unfolding CanReadAll check_dir
check_dir-CanReadAll max path end h = refl
check_dir-CanReadAll max path (item s n l) h =
    let rest = check_dir-CanReadAll max path l h.1 in
    elim (Bool-cases (ignore_file s.name)) [
      | inl t ↦ check_dir-true max path s n l t ∙ rest
      | inr f ↦ elim h.0 [
        | inl t ↦ absurd (cc (t, f))
        | inr g ↦
            check_dir-false max path s n l f
            ∙ rw
                (
                  lt→ltb (length (join path s.name)) max g.0,
                  stat_node-CanRead max (join path s.name) n g.3,
                  rest,
                )
                refl
      ]
    ]

strlen-chars : (s : List ℕ) → All IsChar s → strlen s ≡ length s
unfolding strlen
strlen-chars [] h = refl
strlen-chars (c ∷ s) h = rw (ne→== c 0 h.0.0, add-one) (ap suc (strlen-chars s h.1))

pub name_in_entry-short :
    (held : ℕ) (name : List ℕ)
    → All IsChar name
    → length name < 255
    → name_in_entry held name ≡ done tt
unfolding name_in_entry
name_in_entry-short held name h short =
    let c = strlen-strncpy 255 held name h short in
    rw
      (
        c.0,
        ne→== (length name) 256 (omega (arith, short)),
        strlen-chars name h,
        eq→== (length name) (length name) refl,
      )
      refl

kept_lem : (s : HostStat) (n : Node) → ignore_file s.name ≡ true → ¬ ((kept_type s n == 0) ≡ false)
unfolding kept_type
kept_lem s n t kept =
    let none : kept_type s n ≡ 0 = rw (kept_type, t) refl in cc (eq→== (kept_type s n) 0 none, kept)

-- What is known of an entry that is kept.
pub CanReadAll-kept :
    (max : ℕ) (path : List ℕ) (s : HostStat) (n : Node) (l : Listing)
    → (kept_type s n == 0) ≡ false
    → CanReadAll max path (item s n l)
    → All IsChar s.name × (length s.name < 255) × CanRead max (join path s.name) n
unfolding CanReadAll
CanReadAll-kept max path s n l kept h = elim h.0 [
  | inl t ↦ absurd (kept_lem s n t kept)
  | inr g ↦ (g.1, g.2, g.3)
]

pub CanReadAll-rest :
    (max : ℕ) (path : List ℕ) (s : HostStat) (n : Node) (l : Listing)
    → CanReadAll max path (item s n l)
    → CanReadAll max path l
unfolding CanReadAll
CanReadAll-rest max path s n l h = h.1

pub CanRead-dir :
    (max : ℕ) (path : List ℕ) (l : Listing) → CanRead max path (dir l) → CanReadAll max path l
unfolding CanRead
CanRead-dir max path l h = h

pub CanRead-of_dir :
    (max : ℕ) (path : List ℕ) (l : Listing) → CanReadAll max path l → CanRead max path (dir l)
unfolding CanRead
CanRead-of_dir max path l h = h
