-- ===== src/Filesystem/Lookup.antt =====
-- Which entry of a directory `lookup` finds.
use adelaideos.Common.{
  ℕ, zero, suc, ◌+◌, ◌≤◌, ◌<◌, ◌≡◌, ◌↔◌, inl, inr, true, Option, none, some, List, All, length,
  take, eq_or_ne, Bool-cases, eq→==, ne→==, arith, refl, subst,
}
use adelaideos.Libc.{strlen}
use adelaideos.Libc.Compare.{IsChar, strncmp-equal, strlen-IsChar}
use adelaideos.Filesystem.{
  Image, read_bytes, name_bytes, dir_count, dir_entry, has_name, lookup_loop, lookup,
}

-- The name of the entry, up to its NUL, is the `len` bytes at `name`: it has `len` characters before its
-- NUL, and these are the same.
abbrev pub IsNamed : Image → ℕ → List ℕ → ℕ → Type 0
IsNamed fs e name len =
    (strlen (name_bytes fs e (len + 1)) ≡ len)
    × (take len (name_bytes fs e (len + 1)) ≡ take len name)

read_bytes-bytes :
    (fs : Image) (n a : ℕ) → ((a : ℕ) → fs a < 256) → All (λ c. c < 256) (read_bytes fs n a)
unfolding read_bytes
read_bytes-bytes fs zero a b = tt
read_bytes-bytes fs (suc n) a b = (b a, read_bytes-bytes fs n (a + 1) b)

-- The test of the loop decides whether the entry has the name.
pub has_name-IsNamed :
    (fs : Image) (e : ℕ) (name : List ℕ) (len : ℕ)
    → All (λ c. c < 256) (name_bytes fs e (len + 1))
    → len ≤ length name
    → All IsChar (take len name)
    → (has_name fs e name len ≡ true) ↔ IsNamed fs e name len
has_name-IsNamed fs e name len bytes long chars =
    elim (eq_or_ne (strlen (name_bytes fs e (len + 1))) len) [
      | inl same ↦
          let s = name_bytes fs e (len + 1) in
          let c = strlen-IsChar s bytes in
          let part = subst (λ k. All IsChar (take k s)) same c.1 in
          let k = strncmp-equal s name len (omega (arith, c.0, same)) long part chars in
          rw (eq→== (strlen s) len same) ((λ t. (same, k.0 t)), (λ h. k.1 h.1))
      | inr other ↦
          rw (ne→== (strlen (name_bytes fs e (len + 1))) len other)
            ((λ t. absurd (cc t)), (λ h. absurd (other h.0)))
    ]

name_bytes-bytes :
    (fs : Image) (e n : ℕ) → ((a : ℕ) → fs a < 256) → All (λ c. c < 256) (name_bytes fs e n)
unfolding name_bytes
name_bytes-bytes fs e n b = read_bytes-bytes fs n (e + 20) b

-- The result of a search of the entries from `i` up to `upto`: the first with the name, or none.
abbrev pub IsFirst : Image → ℕ → List ℕ → ℕ → ℕ → ℕ → Option ℕ → Type 0
IsFirst fs d name len i upto none =
    (j : ℕ) → i ≤ j → j < upto → ¬ IsNamed fs (dir_entry d j) name len
IsFirst fs d name len i upto (some e) =
    (k : ℕ) × (i ≤ k)
    × (k < upto)
    × (e ≡ dir_entry d k)
    × IsNamed fs e name len
    × ((j : ℕ) → i ≤ j → j < k → ¬ IsNamed fs (dir_entry d j) name len)

IsFirst-skip :
    (fs : Image) (d : ℕ) (name : List ℕ) (len i upto : ℕ) (o : Option ℕ)
    → ¬ IsNamed fs (dir_entry d i) name len
    → IsFirst fs d name len (i + 1) upto o
    → IsFirst fs d name len i upto o
IsFirst-skip fs d name len i upto none differs h = λ j le lt named. elim (eq_or_ne i j) [
  | inl e ↦ differs (rw e named)
  | inr n ↦ h j (omega arith) lt named
]
IsFirst-skip fs d name len i upto (some e) differs h =
    let (k, le, lt, at, named, before) = h in
    (
      k,
      omega arith,
      lt,
      at,
      named,
      λ j ij jk other. elim (eq_or_ne i j) [
        | inl e ↦ differs (rw e other)
        | inr n ↦ before j (omega arith) jk other
      ],
    )

lookup_loop-IsFirst :
    (rounds : ℕ) (fs : Image) (d i : ℕ) (name : List ℕ) (len : ℕ)
    → ((a : ℕ) → fs a < 256)
    → len ≤ length name
    → All IsChar (take len name)
    → IsFirst fs d name len i (i + rounds) (lookup_loop rounds fs d i name len)
unfolding lookup_loop
lookup_loop-IsFirst zero fs d i name len bytes long chars = λ j le lt. absurd (omega arith)
lookup_loop-IsFirst (suc rounds) fs d i name len bytes long chars =
    let k =
      has_name-IsNamed fs (dir_entry d i) name len
        (name_bytes-bytes fs (dir_entry d i) (len + 1) bytes) long chars in
    let rest = lookup_loop-IsFirst rounds fs d (i + 1) name len bytes long chars in
    let e : i + 1 + rounds ≡ i + suc rounds = omega arith in
    elim (Bool-cases (has_name fs (dir_entry d i) name len)) [
      | inl t ↦ rw t (i, omega arith, omega arith, refl, k.0 t, λ j le lt. absurd (omega arith))
      | inr f ↦
          rw f (IsFirst-skip fs d name len i (i + suc rounds) _ (λ h. cc (k.1 h, f)) (rw e at rest))
    ]

-- A lookup gives the first entry of the directory whose name is the given one, and nothing only if
-- no entry has it. The image is of bytes, and the name is of `len` bytes other than NUL.
pub lookup-IsFirst :
    (fs : Image) (d : ℕ) (name : List ℕ) (len : ℕ)
    → ((a : ℕ) → fs a < 256)
    → len ≤ length name
    → All IsChar (take len name)
    → IsFirst fs d name len 0 (dir_count fs d) (lookup fs d name len)
unfolding lookup
lookup-IsFirst fs d name len bytes long chars =
    let e : 0 + dir_count fs d ≡ dir_count fs d = omega arith in
    rw e at (lookup_loop-IsFirst (dir_count fs d) fs d 0 name len bytes long chars)
