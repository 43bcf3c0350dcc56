-- ===== src/Fstool/Built.antt =====
-- The kernel finds what the tool has put into the image.
use mathlib.Core.List.{flatten}
use adelaideos.Common.{
  ℕ, ◌+◌, ◌^◌, ◌≤◌, ◌<◌, ◌≡◌, ◌∙◌, refl, ap, subst, some, List, [], ◌∷◌, ◌++◌, length, get_or,
  arith, u32_mod, done,
}
use adelaideos.Filesystem.{
  Image, entry_type, entry_size, entry_mode, entry_mtime, entry_location, read_bytes,
  get_directory_entry,
}
use adelaideos.Fstool.{
  BuildOutput, HostStat, Node, dir, file, special, closed_dir, closed_file, no_stat, Listing,
  entry_bytes, u32_bytes, new_entry, kept_type, build, root_entry, image_of, process_dir,
}
use adelaideos.Fstool.Append.{IsOutput, Writes, output_append-Writes}
use adelaideos.Fstool.Blocks.{node_bytes, node_bytes-file}
use adelaideos.Fstool.Readable.{CanReadAll, CanRead-of_dir}
use adelaideos.Fstool.Written.{process_path-node_bytes}
use adelaideos.Fstool.Reading.{Has, Has-left, Has-right, entry_bytes-IsEntry, read_bytes-Has}
use adelaideos.Fstool.Found.{LeadsTo}
use adelaideos.Fstool.Walk.{path_text, Leads, get_directory_entry-Leads}

length-root :
    (mode mtime : ℕ) (spare : List ℕ)
    → length spare ≡ 251
    → length (entry_bytes (root_entry mode mtime spare)) ≡ 276
unfolding entry_bytes u32_bytes root_entry
length-root mode mtime spare h = omega (arith, h)

-- The image: the root's entry, and behind it the directory.
build-Writes :
    (max held mode mtime : ℕ) (path spare : List ℕ) (l : Listing)
    → CanReadAll max path l
    → length spare ≡ 251
    → 276 + length (node_bytes held 276 (dir l)) ≤ 2 ^ 31
    → Writes
        (build max held path (root_entry mode mtime spare) l)
        (entry_bytes (root_entry mode mtime spare) ++ node_bytes held 276 (dir l))
unfolding build process_dir
build-Writes max held mode mtime path spare l can h fits =
    let root = entry_bytes (root_entry mode mtime spare) in
    let size = length-root mode mtime spare h in
    let start : BuildOutput = record { alloc = 1; size = 0; contents = [] } in
    let empty : IsOutput start = record { counted = refl; power = (0, refl, omega arith) } in
    let (o1, r1, h1, c1) = output_append-Writes start root empty (omega (arith, size)) in
    let at1 : length o1.contents ≡ 276 = ap length c1 ∙ size in
    let (o2, r2, h2, c2) =
      process_path-node_bytes max held path o1 (dir l) (CanRead-of_dir max path l can) h1
        (rw at1 fits) in
    (
      o2,
      rw r1 r2,
      h2,
      subst (λ k. o2.contents ≡ o1.contents ++ node_bytes held k (dir l)) at1 c2
          ∙ ap (λ r. r ++ node_bytes held 276 (dir l)) c1,
    )

-- What a file holds is at the location of its entry.
abbrev pub HoldsFile : Image → ℕ → Node → Type 0
HoldsFile fs e (file pieces) =
    read_bytes fs (length (flatten pieces)) (entry_location fs e) ≡ flatten pieces
HoldsFile fs e (dir l) = Unit
HoldsFile fs e special = Unit
HoldsFile fs e closed_dir = Unit
HoldsFile fs e closed_file = Unit
HoldsFile fs e no_stat = Unit

-- The entry says what stat reported, and leads to what a file holds.
pub record Describes (fs : Image) (e : ℕ) (s : HostStat) (n : Node) : Type 0 where
  pub size : entry_size fs e ≡ s.st_size
  pub type : entry_type fs e ≡ kept_type s n
  pub mode : entry_mode fs e ≡ s.st_mode
  pub mtime : entry_mtime fs e ≡ s.st_mtime
  pub contents : HoldsFile fs e n

LeadsTo-HoldsFile :
    (fs : Image) (held e : ℕ) (s : HostStat) (n : Node) → LeadsTo fs held e s n → HoldsFile fs e n
LeadsTo-HoldsFile fs held e s (dir l) h = tt
LeadsTo-HoldsFile fs held e s special h = tt
LeadsTo-HoldsFile fs held e s closed_dir h = tt
LeadsTo-HoldsFile fs held e s closed_file h = tt
LeadsTo-HoldsFile fs held e s no_stat h = tt
LeadsTo-HoldsFile fs held e s (file pieces) h =
    let here = rw (node_bytes-file held h.at pieces) at h.node in
    rw h.entry.location (read_bytes-Has fs (flatten pieces) h.at here)

LeadsTo-Describes :
    (fs : Image) (held e : ℕ) (s : HostStat) (n : Node) → LeadsTo fs held e s n → Describes fs e s n
unfolding new_entry
LeadsTo-Describes fs held e s n h = record {
  size = h.entry.size;
  type = h.entry.type;
  mode = h.entry.mode;
  mtime = h.entry.mtime;
  contents = LeadsTo-HoldsFile fs held e s n h;
}

root_location :
    (fs : Image) (mode mtime : ℕ) (spare : List ℕ)
    → mode < u32_mod
    → mtime < u32_mod
    → length spare ≡ 251
    → Has fs 0 (entry_bytes (root_entry mode mtime spare))
    → entry_location fs 0 ≡ 276
unfolding root_entry
root_location fs mode mtime spare m t h has =
    (entry_bytes-IsEntry fs 0 (root_entry mode mtime spare)
      (record {
        size = omega arith;
        type = omega arith;
        location = omega arith;
        mode = m;
        mtime = t;
        name = omega (arith, h);
      })
      has).location

-- Where stat, opendir and open succeed for the whole tree of the host, its paths fit into the arrays of
-- the tool, the host's tree gives a path of names that lead to a file or a directory, and the image stays
-- within 2 ^ 31 bytes, building the image succeeds; in the image the kernel finds an entry under the
-- path, with the size, the mode and the time that the host reported and with its type, and for a file
-- the bytes at its location are those that were read. The names are of 1 to 254 bytes other than NUL
-- and the slash.
pub build-get_directory_entry :
    (max held mode mtime : ℕ) (path spare : List ℕ) (l : Listing) (x : List ℕ) (ys : List (List ℕ))
    (s : HostStat) (n : Node)
    → CanReadAll max path l
    → held < 256
    → mode < u32_mod
    → mtime < u32_mod
    → length spare ≡ 251
    → 276 + length (node_bytes held 276 (dir l)) ≤ 2 ^ 31
    → Leads l x ys s n
    → (o : BuildOutput) × (build max held path (root_entry mode mtime spare) l ≡ done o)
      × (e : ℕ) × (get_directory_entry (image_of o) (path_text (x ∷ ys)) ≡ some e)
      × Describes (image_of o) e s n
build-get_directory_entry max held mode mtime path spare l x ys s n can b m t h fits leads =
    let root = entry_bytes (root_entry mode mtime spare) in
    let tree = node_bytes held 276 (dir l) in
    let (o, runs, _, written) = build-Writes max held mode mtime path spare l can h fits in
    let whole : Has (image_of o) 0 (root ++ tree) =
      rw written (λ i lt. ap (λ k. get_or (root ++ tree) k 0) (omega arith)) in
    let behind : Has (image_of o) 276 tree =
      subst (λ k. Has (image_of o) k tree) (omega (arith, length-root mode mtime spare h))
        (Has-right (image_of o) 0 root tree whole) in
    let at =
      root_location (image_of o) mode mtime spare m t h (Has-left (image_of o) 0 root tree whole) in
    let (e, found, there) =
      get_directory_entry-Leads (image_of o) held 276 l x ys s n b at fits behind leads in
    (o, runs, e, found, LeadsTo-Describes (image_of o) held e s n there)
