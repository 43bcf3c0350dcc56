-- ===== src/Fstool/Blocks.antt =====
-- What process_dir appends, described without the two passes.
use mathlib.Core.List.{flatten}
use adelaideos.Common.{
  ℕ, zero, suc, ◌+◌, ◌≡◌, ◌∙◌, inl, inr, refl, sym, ap, true, false, List, [], ◌∷◌, ◌++◌, length,
  length-replicate, ◌==◌, Bool-cases, length-append, arith,
}
use adelaideos.Fstool.{
  HostStat, Node, dir, file, special, closed_dir, closed_file, no_stat, Listing, end, item,
  DirectoryEntry, u32_bytes, entry_bytes, entries_bytes, directory_bytes, strncpy, new_entry,
  kept_type, scan_dir, located,
}

-- Where the directory of a listing ends, if it begins at `at`.
abbrev pub behind : ℕ → ℕ → Listing → ℕ
behind held at l = at + length (directory_bytes (scan_dir held l))

-- The bytes of a node at `at`; the entries of a listing, and the bytes of what they lead to, the first
-- of which is at `at`.
unfoldable mutual
  pub node_bytes : ℕ → ℕ → Node → List ℕ
  node_bytes held at (dir l) =
      directory_bytes (placed held (behind held at l) l) ++ children held (behind held at l) l
  node_bytes held at (file pieces) = flatten pieces
  node_bytes held at special = []
  node_bytes held at closed_dir = []
  node_bytes held at closed_file = []
  node_bytes held at no_stat = []

  pub placed : ℕ → ℕ → Listing → List DirectoryEntry
  placed held at end = []
  placed held at (item s n l) = elim (kept_type s n == 0) [
    | true ↦ placed held at l
    | false ↦
        located (new_entry held s (kept_type s n)) at
        ∷ placed held (at + length (node_bytes held at n)) l
  ]

  pub children : ℕ → ℕ → Listing → List ℕ
  children held at end = []
  children held at (item s n l) = elim (kept_type s n == 0) [
    | true ↦ children held at l
    | false ↦ node_bytes held at n ++ children held (at + length (node_bytes held at n)) l
  ]

pub length-strncpy : (n : ℕ) (s : List ℕ) → length (strncpy n s) ≡ n
unfolding strncpy
length-strncpy zero s = refl
length-strncpy (suc n) [] = ap suc (length-replicate n 0)
length-strncpy (suc n) (c ∷ s) = elim (Bool-cases (c == 0)) [
  | inl t ↦ rw t (ap suc (length-replicate n 0))
  | inr f ↦ rw f (ap suc (length-strncpy n s))
]

pub length-entry_bytes :
    (held : ℕ) (s : HostStat) (type at : ℕ)
    → length (entry_bytes (located (new_entry held s type) at)) ≡ 276
unfolding entry_bytes u32_bytes new_entry
length-entry_bytes held s type at =
    omega (arith, length-append {0} (strncpy 255 s.name) (held ∷ []), length-strncpy 255 s.name)

-- An entry that is passed over, and one that is kept.
module _ (held at : ℕ) (s : HostStat) (n : Node) (l : Listing)
    (t : (kept_type s n == 0) ≡ true) where
  pub placed-skip : placed held at (item s n l) ≡ placed held at l
  unfolding placed
  placed-skip = rw (t, placed) refl

  pub children-skip : children held at (item s n l) ≡ children held at l
  unfolding children
  children-skip = rw (t, children) refl

  pub scan_dir-skip : scan_dir held (item s n l) ≡ scan_dir held l
  unfolding scan_dir
  scan_dir-skip = rw (t, scan_dir) refl

module _ (held at : ℕ) (s : HostStat) (n : Node) (l : Listing)
    (f : (kept_type s n == 0) ≡ false) where
  pub placed-keep :
      placed held at (item s n l)
      ≡ located (new_entry held s (kept_type s n)) at
        ∷ placed held (at + length (node_bytes held at n)) l
  unfolding placed
  placed-keep = rw (f, placed) refl

  pub children-keep :
      children held at (item s n l)
      ≡ node_bytes held at n ++ children held (at + length (node_bytes held at n)) l
  unfolding children
  children-keep = rw (f, children) refl

  pub scan_dir-keep :
      scan_dir held (item s n l) ≡ new_entry held s (kept_type s n) ∷ scan_dir held l
  unfolding scan_dir
  scan_dir-keep = rw (f, scan_dir) refl

-- The two passes write directories of the same length.
same_length :
    (held at : ℕ) (l : Listing)
    → (length (placed held at l) ≡ length (scan_dir held l))
      × (length (entries_bytes (placed held at l)) ≡ length (entries_bytes (scan_dir held l)))
unfolding placed scan_dir entries_bytes
same_length held at end = (refl, refl)
same_length held at (item s n l) = elim (Bool-cases (kept_type s n == 0)) [
  | inl t ↦ rw (placed-skip held at s n l t, scan_dir-skip held at s n l t) (same_length held at l)
  | inr f ↦
      let e = new_entry held s (kept_type s n) in
      let next = at + length (node_bytes held at n) in
      let ih = same_length held next l in
      let one : length (entry_bytes (located e at)) ≡ length (entry_bytes e) =
        unfold entry_bytes u32_bytes in refl in
      rw (placed-keep held at s n l f, scan_dir-keep held at s n l f)
        (
          ap suc ih.0,
          length-append {0} (entry_bytes (located e at)) (entries_bytes (placed held next l))
              ∙ omega (arith, one, ih.1)
              ∙ sym (length-append {0} (entry_bytes e) (entries_bytes (scan_dir held l))),
        )
]

pub length-directory :
    (held at : ℕ) (l : Listing)
    → length (directory_bytes (placed held at l)) ≡ length (directory_bytes (scan_dir held l))
unfolding directory_bytes u32_bytes
length-directory held at l = omega (arith, (same_length held at l).1)

pub node_bytes-dir :
    (held at : ℕ) (l : Listing)
    → node_bytes held at (dir l)
      ≡ directory_bytes (placed held (behind held at l) l) ++ children held (behind held at l) l
unfolding node_bytes
node_bytes-dir held at l = refl

pub node_bytes-file :
    (held at : ℕ) (pieces : List (List ℕ)) → node_bytes held at (file pieces) ≡ flatten pieces
unfolding node_bytes
node_bytes-file held at pieces = refl
