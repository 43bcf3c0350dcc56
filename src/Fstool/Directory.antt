-- ===== src/Fstool/Directory.antt =====
-- A lookup in a directory as the tool writes it.
use adelaideos.Common.{
  ℕ, ◌+◌, ◌^◌, ◌≤◌, ◌<◌, ◌≡◌, subst, List, [], ◌∷◌, length, length-append, arith,
}
use adelaideos.Filesystem.{Image, dir_count, dir_entry, lookup}
use adelaideos.Fstool.{
  HostStat, Node, dir, Listing, DirectoryEntry, entry_bytes, entries_bytes, directory_bytes,
  u32_bytes,
}
use adelaideos.Fstool.Blocks.{
  node_bytes, placed, children, behind, length-directory, node_bytes-dir,
}
use adelaideos.Fstool.Reading.{Has, Has-left, Has-right, read_u32-Has}
use adelaideos.Fstool.Found.{IsListing, Contains, Sought, Finds, lookup_loop-Contains}

length-entries : (es : List DirectoryEntry) → length es ≤ length (entries_bytes es)
unfolding entries_bytes entry_bytes u32_bytes
length-entries [] = omega arith
length-entries (e ∷ es) =
    omega (arith, length-append {0} (entry_bytes e) (entries_bytes es), length-entries es)

directory_count :
    (fs : Image) (d : ℕ) (es : List DirectoryEntry)
    → length (directory_bytes es) ≤ 2 ^ 31
    → Has fs d (directory_bytes es)
    → dir_count fs d ≡ length es
unfolding directory_bytes u32_bytes
directory_count fs d es fits h =
    read_u32-Has fs d (length es) (omega (arith, length-entries es))
      (Has-left fs d (u32_bytes (length es)) (entries_bytes es) h)

directory_entries :
    (fs : Image) (d : ℕ) (es : List DirectoryEntry)
    → Has fs d (directory_bytes es)
    → Has fs (dir_entry d 0) (entries_bytes es)
unfolding directory_bytes u32_bytes
directory_entries fs d es h =
    let e : d + length (u32_bytes (length es)) ≡ dir_entry d 0 = omega arith in
    rw e at (Has-right fs d (u32_bytes (length es)) (entries_bytes es) h)

-- A lookup in a directory of the image.
pub lookup-Contains :
    (fs : Image) (held d : ℕ) (l : Listing) (name : List ℕ) (len : ℕ) (s : HostStat) (n : Node)
    → held < 256
    → IsListing l
    → Sought name len s
    → d + length (node_bytes held d (dir l)) ≤ 2 ^ 31
    → Has fs d (node_bytes held d (dir l))
    → Contains l s n
    → Finds fs held (lookup fs d name len) s n
unfolding lookup directory_bytes
lookup-Contains fs held d l name len s n b hl h fits has c =
    let at = behind held d l in
    let es = placed held at l in
    let ch = children held at l in
    let fits' = rw (node_bytes-dir held d l) at fits in
    let has' = rw (node_bytes-dir held d l) at has in
    let long = length-append {0} (directory_bytes es) ch in
    let same = length-directory held at l in
    let head = Has-left fs d (directory_bytes es) ch has' in
    let tail : Has fs at ch =
      subst (λ k. Has fs (d + k) ch) same (Has-right fs d (directory_bytes es) ch has') in
    let count : dir_count fs d ≡ length es = directory_count fs d es (omega (arith, long)) head in
    rw count (
      lookup_loop-Contains fs held d 0 at l name len s n b hl h (omega (arith, long, same))
        (directory_entries fs d es head) tail c)
