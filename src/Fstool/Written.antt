-- ===== src/Fstool/Written.antt =====
-- process_dir appends the bytes that describe the tree.
use mathlib.Core.List.{append-nil, append_assoc}
use adelaideos.Common.{
  ℕ, ◌+◌, ◌^◌, ◌≤◌, ◌≡◌, ◌∙◌, inl, inr, refl, sym, ap, true, false, List, ◌∷◌, ◌++◌, length, ◌==◌,
  Bool-cases, length-append, arith, Run, done, ◌>>=◌,
}
use adelaideos.Fstool.{
  BuildOutput, HostStat, Node, dir, file, special, closed_dir, closed_file, no_stat, join,
  check_dir, name_in_entry, Listing, end, item, DirectoryEntry, directory_bytes, new_entry,
  kept_type, scan_dir, overwrite, output_append, located, process_path, process_entries,
}
use adelaideos.Fstool.Blocks.{
  node_bytes, placed, children, behind, placed-skip, children-skip, placed-keep, children-keep,
  length-directory,
}
use adelaideos.Fstool.Readable.{
  CanRead, CanReadAll, CanReadAll-kept, CanReadAll-rest, CanRead-dir, check_dir-CanReadAll,
  name_in_entry-short,
}
use adelaideos.Fstool.Append.{
  IsOutput, Writes, output_append-Writes, process_file-Writes, overwrite-lem, overwrite-IsOutput,
}

-- What process_entries gives: the entries with their locations, and the output.
abbrev Entries : Run (List DirectoryEntry × BuildOutput) → List DirectoryEntry → List ℕ → Type 0
Entries r es bytes = (o : BuildOutput) × (r ≡ done (es, o)) × IsOutput o × (o.contents ≡ bytes)

abbrev entries_of_item :
    ℕ
    → ℕ
    → List ℕ
    → BuildOutput
    → HostStat
    → Node
    → Listing
    → Run (List DirectoryEntry × BuildOutput)
entries_of_item max held path out s n l = do
  _ ← name_in_entry held s.name
  out1 ← process_path max held (join path s.name) out n
  (es, out2) ← process_entries max held path out1 l
  done (located (new_entry held s (kept_type s n)) out.size ∷ es, out2)

-- The same two cases for process_entries.
process_entries-skip :
    (max held : ℕ) (path : List ℕ) (o : BuildOutput) (s : HostStat) (n : Node) (l : Listing)
    → (kept_type s n == 0) ≡ true
    → process_entries max held path o (item s n l) ≡ process_entries max held path o l
unfolding process_entries
process_entries-skip max held path o s n l t = λ i.
    elim (t i) as (λ _. Run (List DirectoryEntry × BuildOutput)) [
      | true ↦ process_entries max held path o l
      | false ↦ entries_of_item max held path o s n l
    ]

process_entries-keep :
    (max held : ℕ) (path : List ℕ) (o : BuildOutput) (s : HostStat) (n : Node) (l : Listing)
    → (kept_type s n == 0) ≡ false
    → process_entries max held path o (item s n l) ≡ entries_of_item max held path o s n l
unfolding process_entries
process_entries-keep max held path o s n l f = λ i.
    elim (f i) as (λ _. Run (List DirectoryEntry × BuildOutput)) [
      | true ↦ process_entries max held path o l
      | false ↦ entries_of_item max held path o s n l
    ]

skip-Entries :
    (max held : ℕ) (path : List ℕ) (o : BuildOutput) (s : HostStat) (n : Node) (l : Listing)
    → (kept_type s n == 0) ≡ true
    → Entries
        (process_entries max held path o l)
        (placed held (length o.contents) l)
        (o.contents ++ children held (length o.contents) l)
    → Entries
        (process_entries max held path o (item s n l))
        (placed held (length o.contents) (item s n l))
        (o.contents ++ children held (length o.contents) (item s n l))
unfolding process_entries
skip-Entries max held path o s n l t (o', r, h, c) =
    let at = length o.contents in
    rw (placed-skip held at s n l t, children-skip held at s n l t)
      (o', process_entries-skip max held path o s n l t ∙ r, h, c)

keep-Entries :
    (max held : ℕ) (path : List ℕ) (o o1 o2 : BuildOutput) (s : HostStat) (n : Node) (l : Listing)
    → (kept_type s n == 0) ≡ false
    → IsOutput o
    → name_in_entry held s.name ≡ done tt
    → process_path max held (join path s.name) o n ≡ done o1
    → length o1.contents ≡ length o.contents + length (node_bytes held (length o.contents) n)
    → o1.contents ≡ o.contents ++ node_bytes held (length o.contents) n
    → process_entries max held path o1 l ≡ done (placed held (length o1.contents) l, o2)
    → IsOutput o2
    → o2.contents ≡ o1.contents ++ children held (length o1.contents) l
    → Entries
        (process_entries max held path o (item s n l))
        (placed held (length o.contents) (item s n l))
        (o.contents ++ children held (length o.contents) (item s n l))
unfolding process_entries
keep-Entries max held path o o1 o2 s n l f h named r1 at1 c1 r2 h2 c2 =
    let at = length o.contents in
    let bytes = node_bytes held at n in
    let ch = children held (at + length bytes) l in
    rw (placed-keep held at s n l f, children-keep held at s n l f)
      (
        o2,
        process_entries-keep max held path o s n l f
            ∙ rw (named, r1, h.counted) (rw (r2, at1) refl),
        h2,
        rw at1 at c2 ∙ ap (λ r. r ++ ch) c1 ∙ append_assoc o.contents bytes ch,
      )

dir-Writes :
    (max held : ℕ) (path : List ℕ) (o o1 o2 : BuildOutput) (l : Listing)
    → IsOutput o
    → check_dir max path l ≡ done tt
    → output_append o (directory_bytes (scan_dir held l)) ≡ done o1
    → length o1.contents ≡ behind held (length o.contents) l
    → o1.contents ≡ o.contents ++ directory_bytes (scan_dir held l)
    → process_entries max held path o1 l ≡ done (placed held (length o1.contents) l, o2)
    → IsOutput o2
    → o2.contents ≡ o1.contents ++ children held (length o1.contents) l
    → Writes
        (process_path max held path o (dir l))
        (o.contents ++ node_bytes held (length o.contents) (dir l))
unfolding process_path node_bytes
dir-Writes max held path o o1 o2 l h r0 r1 at1 c1 r2 h2 c2 =
    let at = length o.contents in
    let old = directory_bytes (scan_dir held l) in
    let next = behind held at l in
    let new = directory_bytes (placed held next l) in
    let ch = children held next l in
    let same : length old ≡ length new = sym (length-directory held next l) in
    let c3 : o2.contents ≡ o.contents ++ (old ++ ch) =
      rw at1 at c2 ∙ ap (λ r. r ++ ch) c1 ∙ append_assoc o.contents old ch in
    (
      overwrite o2 at new,
      rw (r0, r1) (rw (r2, at1, h.counted) refl),
      overwrite-IsOutput o2 o.contents old new ch h2 c3 same,
      overwrite-lem o2 o.contents old new ch c3 same,
    )

mutual
  unfolding process_path process_entries node_bytes placed children CanRead

  process_path-bytes :
      (max held : ℕ) (path : List ℕ) (o : BuildOutput) (n : Node)
      → CanRead max path n
      → IsOutput o
      → length o.contents + length (node_bytes held (length o.contents) n) ≤ 2 ^ 31
      → Writes
          (process_path max held path o n)
          (o.contents ++ node_bytes held (length o.contents) n)
  process_path-bytes max held path o (dir l) can h fits =
      let at = length o.contents in
      let old = directory_bytes (scan_dir held l) in
      let next = behind held at l in
      let new = directory_bytes (placed held next l) in
      let ch = children held next l in
      let same : length old ≡ length new = sym (length-directory held next l) in
      let long = length-append {0} new ch in
      let (o1, r1, h1, c1) = output_append-Writes o old h (omega (arith, long, same)) in
      let at1 : length o1.contents ≡ next = ap length c1 ∙ length-append {0} o.contents old in
      let (o2, r2, h2, c2) =
        process_entries-bytes max held path o1 l (CanRead-dir max path l can) h1
          (rw at1 (omega (arith, long, same))) in
      dir-Writes max held path o o1 o2 l h
        (check_dir-CanReadAll max path l (CanRead-dir max path l can)) r1 at1 c1 r2 h2 c2
  process_path-bytes max held path o (file pieces) can h fits = process_file-Writes o pieces h fits
  process_path-bytes max held path o special can h fits = (o, refl, h, sym (append-nil o.contents))
  process_path-bytes max held path o closed_dir can h fits = absurd can
  process_path-bytes max held path o closed_file can h fits = absurd can
  process_path-bytes max held path o no_stat can h fits = absurd can

  process_entries-bytes :
      (max held : ℕ) (path : List ℕ) (o : BuildOutput) (l : Listing)
      → CanReadAll max path l
      → IsOutput o
      → length o.contents + length (children held (length o.contents) l) ≤ 2 ^ 31
      → Entries
          (process_entries max held path o l)
          (placed held (length o.contents) l)
          (o.contents ++ children held (length o.contents) l)
  process_entries-bytes max held path o end can h fits = (o, refl, h, sym (append-nil o.contents))
  process_entries-bytes max held path o (item s n l) can h fits =
      elim (Bool-cases (kept_type s n == 0)) [
        | inl t ↦ skip-Entries max held path o s n l t (
            process_entries-bytes max held path o l (CanReadAll-rest max path s n l can) h
              (rw (children-skip held (length o.contents) s n l t) at fits))
        | inr f ↦
            let known = CanReadAll-kept max path s n l f can in
            let at = length o.contents in
            let bytes = node_bytes held at n in
            let next = at + length bytes in
            let fits' = rw (children-keep held at s n l f) at fits in
            let long = length-append {0} bytes (children held next l) in
            let (o1, r1, h1, c1) =
              process_path-bytes max held (join path s.name) o n known.2 h
                (omega (arith, fits', long)) in
            let at1 : length o1.contents ≡ next =
              ap length c1 ∙ length-append {0} o.contents bytes in
            let (o2, r2, h2, c2) =
              process_entries-bytes max held path o1 l (CanReadAll-rest max path s n l can) h1
                (rw at1 (omega (arith, fits', long))) in
            keep-Entries max held path o o1 o2 s n l f h
              (name_in_entry-short held s.name known.0 known.1) r1 at1 c1 r2 h2 c2
      ]

-- While the image stays within 2 ^ 31 bytes, and the tree can be read, process_dir appends the bytes of the directory.
pub process_path-node_bytes :
    (max held : ℕ) (path : List ℕ) (o : BuildOutput) (n : Node)
    → CanRead max path n
    → IsOutput o
    → length o.contents + length (node_bytes held (length o.contents) n) ≤ 2 ^ 31
    → Writes (process_path max held path o n) (o.contents ++ node_bytes held (length o.contents) n)
process_path-node_bytes max held path o n can h fits =
    process_path-bytes max held path o n can h fits
