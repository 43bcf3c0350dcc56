-- ===== src/Fstool/Found.antt =====
-- The kernel's lookup in a directory that process_dir has written.
use adelaideos.Common.{
  ℕ, zero, suc, ◌+◌, ◌^◌, ◌≤◌, ◌<◌, ◌≡◌, ◌≢◌, ◌↔◌, ◌⊎◌, ◌∙◌, inl, inr, refl, sym, ap, subst, true,
  false, Option, some, List, [], ◌∷◌, All, All-append, length, take, ◌==◌, Bool-cases,
  length-append, take-take, eq_or_ne, eq→==, ne→==, arith, u32_mod,
}
use adelaideos.Libc.{strlen}
use adelaideos.Libc.Compare.{IsChar}
use adelaideos.Filesystem.{
  Image, slash, read_bytes, name_bytes, entry_name, dir_entry, has_name, lookup_loop,
}
use adelaideos.Filesystem.Lookup.{has_name-IsNamed}
use adelaideos.Fstool.{
  HostStat, Node, dir, file, special, closed_dir, closed_file, no_stat, Listing, end, item,
  DirectoryEntry, entry_bytes, entries_bytes, strncpy, new_entry, kept_type, located,
}
use adelaideos.Fstool.Blocks.{
  node_bytes, placed, children, placed-skip, children-skip, placed-keep, children-keep,
  length-strncpy, length-entry_bytes,
}
use adelaideos.Fstool.Reading.{
  Has, Has-left, Has-right, Fits, IsEntry, entry_bytes-IsEntry, copied, strlen-strncpy,
  strncpy-bytes,
}

-- A name that a path can hold, and that is shorter than the array for it.
pub record IsFileName (name : List ℕ) : Type 0 where
  pub some_byte : 0 < length name
  pub short : length name < 255
  pub chars : All IsChar name
  pub one_part : All (λ c. c ≢ slash) name

pub record IsHostStat (s : HostStat) : Type 0 where
  pub file_name : IsFileName s.name
  pub size : s.st_size < u32_mod
  pub mode : s.st_mode < u32_mod
  pub mtime : s.st_mtime < u32_mod

abbrev pub IsListing : Listing → Type 0
IsListing end = Unit
IsListing (item s n l) = IsHostStat s × IsListing l

abbrev pub IsKept : HostStat → Node → Type 0
IsKept s n = (kept_type s n == 0) ≡ false

-- The first entry of the listing with the name of `s` is kept, and leads to `n`.
abbrev pub Contains : Listing → HostStat → Node → Type 0
Contains end s n = ⊥
Contains (item t m l) s n = (IsKept t m × (t ≡ s) × (m ≡ n)) ⊎ ((t.name ≢ s.name) × Contains l s n)

strlen-take :
    (m : ℕ) (xs : List ℕ)
    → ((strlen xs < m) × (strlen (take m xs) ≡ strlen xs))
      ⊎ ((m ≤ strlen xs) × (strlen (take m xs) ≡ m))
unfolding strlen
strlen-take zero xs = inr (omega arith, refl)
strlen-take (suc m) [] = inl (omega arith, refl)
strlen-take (suc m) (x ∷ xs) = elim (eq_or_ne x 0) [
  | inl e ↦ rw (eq→== x 0 e) (inl (omega arith, refl))
  | inr n ↦ elim (strlen-take m xs) [
    | inl h ↦ rw (ne→== x 0 n) (inl (omega (arith, h.0), ap (λ k. k + 1) h.1))
    | inr h ↦ rw (ne→== x 0 n) (inr (omega (arith, h.0), omega (arith, h.1)))
  ]
]

strlen-take_iff : (len : ℕ) (xs : List ℕ) → (strlen (take (len + 1) xs) ≡ len) ↔ (strlen xs ≡ len)
strlen-take_iff len xs = elim (strlen-take (len + 1) xs) [
  | inl h ↦ ((λ e. sym h.1 ∙ e), (λ e. h.1 ∙ e))
  | inr h ↦ ((λ e. absurd (omega (arith, e, h.1))), (λ e. absurd (omega (arith, e, h.0))))
]

All-take {κ} : (P : ℕ → Type κ) (n : ℕ) (xs : List ℕ) → All P xs → All P (take n xs)
All-take P zero xs h = tt
All-take P (suc n) [] h = tt
All-take P (suc n) (x ∷ xs) h = (h.0, All-take P n xs h.1)

read_bytes-take : (fs : Image) (n m a : ℕ) → n ≤ m → read_bytes fs n a ≡ take n (read_bytes fs m a)
unfolding read_bytes
read_bytes-take fs zero m a h = refl
read_bytes-take fs (suc n) zero a h = absurd (omega arith)
read_bytes-take fs (suc n) (suc m) a h =
    ap (λ r. fs a ∷ r) (read_bytes-take fs n m (a + 1) (omega arith))

-- A part of the array `name` is what stands at its start.
name_bytes-take :
    (fs : Image) (e n : ℕ) (name : List ℕ)
    → n ≤ 256
    → entry_name fs e ≡ name
    → name_bytes fs e n ≡ take n name
unfolding name_bytes entry_name
name_bytes-take fs e n name h same = read_bytes-take fs n 256 (e + 20) h ∙ ap (take n) same

entry_named :
    (fs : Image) (e held : ℕ) (t : List ℕ) (name : List ℕ) (len : ℕ) (x : List ℕ)
    → entry_name fs e ≡ copied t held
    → held < 256
    → IsFileName t
    → IsFileName x
    → take len name ≡ x
    → len ≡ length x
    → len ≤ length name
    → (has_name fs e name len ≡ true) ↔ (t ≡ x)
entry_named fs e held t name len x array b ht hx found size long =
    let whole = copied t held in
    let same = name_bytes-take fs e (len + 1) whole (omega (arith, hx.short)) array in
    let cut : take len (take (len + 1) whole) ≡ take len whole =
      take-take len (len + 1) whole (omega arith) in
    let c = strlen-strncpy 255 held t ht.chars ht.short in
    let ends = strlen-take_iff len whole in
    let bytes : All (λ c. c < 256) (name_bytes fs e (len + 1)) = rw same (
      All-take (λ c. c < 256) (len + 1) whole
        (All-append (λ c. c < 256) (strncpy 255 t) (held ∷ []) (strncpy-bytes 255 t ht.chars)
          (b, tt))) in
    let k = has_name-IsNamed fs e name len bytes long (rw found hx.chars) in
    (
      λ h.
          let named = k.0 h in
          let lt : length t ≡ len = sym c.0 ∙ ends.0 (ap strlen (sym same) ∙ named.0) in
          sym c.1
          ∙ ap (λ m. take m whole) lt
          ∙ sym cut
          ∙ ap (take len) (sym same)
          ∙ named.1
          ∙ found,
      λ h.
          let lt : length t ≡ len = ap length h ∙ sym size in
          k.1 (
            ap strlen same ∙ ends.1 (c.0 ∙ lt),
            ap (take len) same ∙ cut ∙ ap (λ m. take m whole) (sym lt) ∙ c.1 ∙ h ∙ sym found,
          ),
    )

kept_type-le : (s : HostStat) (n : Node) → kept_type s n ≤ 2
unfolding kept_type
kept_type-le s (dir l) = ground arith
kept_type-le s (file ps) = ground arith
kept_type-le s special = ground arith
kept_type-le s closed_dir = ground arith
kept_type-le s closed_file = ground arith
kept_type-le s no_stat = ground arith

new_entry-Fits :
    (held at : ℕ) (s : HostStat) (n : Node)
    → IsHostStat s
    → at ≤ 2 ^ 31
    → Fits (located (new_entry held s (kept_type s n)) at)
unfolding new_entry
new_entry-Fits held at s n h le = record {
  size = h.size;
  type = omega (arith, kept_type-le s n);
  location = omega arith;
  mode = h.mode;
  mtime = h.mtime;
  name =
      length-append {0} (strncpy 255 s.name) (held ∷ []) ∙ omega (arith, length-strncpy 255 s.name);
}

-- An entry of the image that leads to the node.
pub record LeadsTo (fs : Image) (held e : ℕ) (s : HostStat) (n : Node) : Type 0 where
  pub at : ℕ
  pub entry : IsEntry fs e (located (new_entry held s (kept_type s n)) at)
  pub node : Has fs at (node_bytes held at n)
  pub fits : at + length (node_bytes held at n) ≤ 2 ^ 31

abbrev pub Finds : Image → ℕ → Option ℕ → HostStat → Node → Type 0
Finds fs held o s n = (e : ℕ) × (o ≡ some e) × LeadsTo fs held e s n

lookup_loop-hit :
    (rounds : ℕ) (fs : Image) (d i : ℕ) (name : List ℕ) (len : ℕ)
    → has_name fs (dir_entry d i) name len ≡ true
    → lookup_loop (suc rounds) fs d i name len ≡ some (dir_entry d i)
unfolding lookup_loop
lookup_loop-hit rounds fs d i name len h = rw h refl

lookup_loop-miss :
    (rounds : ℕ) (fs : Image) (d i : ℕ) (name : List ℕ) (len : ℕ)
    → has_name fs (dir_entry d i) name len ≡ false
    → lookup_loop (suc rounds) fs d i name len ≡ lookup_loop rounds fs d (i + 1) name len
unfolding lookup_loop
lookup_loop-miss rounds fs d i name len h = rw h refl

-- The first entry of a directory, read, and the others behind it.
first-IsEntry :
    (fs : Image) (held d i at : ℕ) (s : HostStat) (n : Node) (es : List DirectoryEntry)
    → IsHostStat s
    → at ≤ 2 ^ 31
    → Has fs (dir_entry d i) (entries_bytes (located (new_entry held s (kept_type s n)) at ∷ es))
    → IsEntry fs (dir_entry d i) (located (new_entry held s (kept_type s n)) at)
      × Has fs (dir_entry d (i + 1)) (entries_bytes es)
unfolding entries_bytes
first-IsEntry fs held d i at s n es hs le h =
    let e = located (new_entry held s (kept_type s n)) at in
    let next : dir_entry d i + length (entry_bytes e) ≡ dir_entry d (i + 1) =
      omega (arith, length-entry_bytes held s (kept_type s n) at) in
    (
      entry_bytes-IsEntry fs (dir_entry d i) e (new_entry-Fits held at s n hs le)
          (Has-left fs (dir_entry d i) (entry_bytes e) (entries_bytes es) h),
      rw next at (Has-right fs (dir_entry d i) (entry_bytes e) (entries_bytes es) h),
    )

-- What the lookup of the name of `s` has at hand.
pub record Sought (name : List ℕ) (len : ℕ) (s : HostStat) : Type 0 where
  pub file_name : IsFileName s.name
  pub found : take len name ≡ s.name
  pub size : len ≡ length s.name
  pub long : len ≤ length name

test_first :
    (fs : Image) (held e at : ℕ) (t s : HostStat) (n : Node) (name : List ℕ) (len : ℕ)
    → held < 256
    → IsHostStat t
    → Sought name len s
    → IsEntry fs e (located (new_entry held t (kept_type t n)) at)
    → (has_name fs e name len ≡ true) ↔ (t.name ≡ s.name)
unfolding new_entry
test_first fs held e at t s n name len b ht h entry =
    entry_named fs e held t.name name len s.name entry.name b ht.file_name h.file_name h.found
      h.size h.long

pub lookup_loop-Contains :
    (fs : Image) (held d i at : ℕ) (l : Listing) (name : List ℕ) (len : ℕ) (s : HostStat) (n : Node)
    → held < 256
    → IsListing l
    → Sought name len s
    → at + length (children held at l) ≤ 2 ^ 31
    → Has fs (dir_entry d i) (entries_bytes (placed held at l))
    → Has fs at (children held at l)
    → Contains l s n
    → Finds fs held (lookup_loop (length (placed held at l)) fs d i name len) s n
lookup_loop-Contains fs held d i at end name len s n b hl h fits he hc c = absurd c
lookup_loop-Contains fs held d i at (item t m l) name len s n b hl h fits he hc c =
    elim (Bool-cases (kept_type t m == 0)) [
      | inl out ↦ elim c [
        | inl first ↦ absurd (cc (first.0, out))
        | inr later ↦
            let same = children-skip held at t m l out in
            let same' = placed-skip held at t m l out in
            rw same' (
              lookup_loop-Contains fs held d i at l name len s n b hl.1 h (rw same at fits)
                (rw same' at he) (rw same at hc) later.1)
      ]
      | inr kept ↦
          let bytes = node_bytes held at m in
          let next = at + length bytes in
          let same = children-keep held at t m l kept in
          let long = length-append {0} bytes (children held next l) in
          let fits' : next + length (children held next l) ≤ 2 ^ 31 =
            omega (arith, long, rw same at fits) in
          let es = placed held next l in
          let (entry, others) =
            first-IsEntry fs held d i at t m es hl.0 (omega arith)
              (rw (placed-keep held at t m l kept) at he) in
          let test = test_first fs held (dir_entry d i) at t s m name len b hl.0 h entry in
          let hc' = rw same at hc in
          rw (placed-keep held at t m l kept) (elim c [
            | inl (_, e1, e2) ↦ (
              dir_entry d i,
              lookup_loop-hit (length es) fs d i name len (test.1 (ap (λ r. r.name) e1)),
              subst (λ r. LeadsTo fs held (dir_entry d i) r n) e1
                  (subst (λ r. LeadsTo fs held (dir_entry d i) t r) e2
                    (record {
                      at = at;
                      entry = entry;
                      node = Has-left fs at bytes (children held next l) hc';
                      fits = omega arith;
                    })),
            )
            | inr (ne, later) ↦ elim (Bool-cases (has_name fs (dir_entry d i) name len)) [
              | inl yes' ↦ absurd (ne (test.0 yes'))
              | inr no' ↦ rw (lookup_loop-miss (length es) fs d i name len no') (
                  lookup_loop-Contains fs held d (i + 1) next l name len s n b hl.1 h fits' others
                    (Has-right fs at bytes (children held next l) hc') later)
            ]
          ])
    ]
