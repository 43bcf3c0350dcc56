-- ===== src/Fstool.antt =====
-- source/fstool.c: the tool of the host that builds the image of the file system from a directory. What
-- the host's opendir, readdir, stat, open and read report is a tree: a directory is the sequence of its
-- entries, a file the sequence of pieces in which it is read; or a call fails. The tree says what the
-- whole path of a part leads to. The tool makes paths in arrays of `max` bytes, the host's PATH_MAX;
-- where a path does not fit, it is cut off, and the model stops.
pub mod Append
pub mod Readable
pub mod Blocks
pub mod Written
pub mod Reading
pub mod Found
pub mod Directory
pub mod Walk
pub mod Built
pub mod Inspect
use adelaideos.Common.{
  ℕ, zero, suc, ◌+◌, ◌*◌, ◌/◌, ◌%◌, ◌^◌, Bool, true, false, ◌||◌, List, [], ◌∷◌, ◌++◌, length, take,
  drop, replicate, get_or, ltb, ◌==◌, if◌then◌else◌, u32_mod, Run, done, stop, overrun, no_fuel,
  gave_up, path_cut, ◌>>=◌, ◌>>◌,
}
use adelaideos.Libc.{strlen, strcmp, is_zero}
use adelaideos.Filesystem.{Image, slash, type_dir, type_file}

-- `alloc` bytes are allocated, of which `contents` are the first `size`.
pub record BuildOutput : Type 0 where
  pub alloc : ℕ
  pub size : ℕ
  pub contents : List ℕ

-- while (b->size+size > b->alloc) b->alloc *= 2;
unfoldable pub grow_alloc : ℕ → ℕ → ℕ → Run ℕ
grow_alloc zero need alloc = stop no_fuel
grow_alloc (suc fuel) need alloc = elim (ltb alloc need) [
  | true ↦ grow_alloc fuel need (alloc * 2 % u32_mod)
  | false ↦ done alloc
]

-- The fuel: doubling reaches any need up to 2 ^ 31 in 32 rounds.
unfoldable pub output_append : BuildOutput → List ℕ → Run BuildOutput
output_append b bytes = do
  let need = (b.size + length bytes) % u32_mod
  alloc ← grow_alloc 33 need b.alloc
  done (record { alloc = alloc; size = need; contents = take b.size b.contents ++ bytes })

-- What stat reports of an entry, with the name that readdir gives.
pub record HostStat : Type 0 where
  pub name : List ℕ
  pub st_size : ℕ
  pub st_mode : ℕ
  pub st_mtime : ℕ

-- What the mode says: S_ISDIR, S_ISREG, or neither; a directory that opendir does not open, a file that
-- open does not open, or an entry for which stat fails.
mutual
  pub data Node : Type 0 where
    dir : Listing → Node
    file : List (List ℕ) → Node
    special : Node
    closed_dir : Node
    closed_file : Node
    no_stat : Node

  pub data Listing : Type 0 where
    end : Listing
    item : HostStat → Node → Listing → Listing

-- for each piece that read gives: output_append(out,tmp,r)
unfoldable pub process_file : BuildOutput → List (List ℕ) → Run BuildOutput
process_file out [] = done out
process_file out (piece ∷ pieces) = do out ← output_append out piece; process_file out pieces

unfoldable pub ignore_file : List ℕ → Bool
ignore_file name =
    is_zero (strcmp name (b'.' ∷ []))
    || is_zero (strcmp name (b'.' ∷ b'.' ∷ []))
    || is_zero (strcmp name (b'.' ∷ b's' ∷ b'v' ∷ b'n' ∷ []))

-- The packed structure `directory_entry`; a store into a field keeps 32 bits.
pub record DirectoryEntry : Type 0 where
  pub size : ℕ
  pub type : ℕ
  pub location : ℕ
  pub mode : ℕ
  pub mtime : ℕ
  pub name : List ℕ

unfoldable pub u32_bytes : ℕ → List ℕ
u32_bytes v = v % 256 ∷ v / 2 ^ 8 % 256 ∷ v / 2 ^ 16 % 256 ∷ v / 2 ^ 24 % 256 ∷ []

unfoldable pub entry_bytes : DirectoryEntry → List ℕ
entry_bytes e =
    u32_bytes e.size
    ++ (u32_bytes e.type
        ++ (u32_bytes e.location ++ (u32_bytes e.mode ++ (u32_bytes e.mtime ++ e.name))))

unfoldable pub entries_bytes : List DirectoryEntry → List ℕ
entries_bytes [] = []
entries_bytes (e ∷ es) = entry_bytes e ++ entries_bytes es

-- The packed structure `directory`.
unfoldable pub directory_bytes : List DirectoryEntry → List ℕ
directory_bytes es = u32_bytes (length es) ++ entries_bytes es

-- strncpy of the host's C library: at most `n` bytes, filled up with NULs.
unfoldable pub strncpy : ℕ → List ℕ → List ℕ
strncpy zero s = []
strncpy (suc n) [] = 0 ∷ replicate n 0
strncpy (suc n) (c ∷ s) = let rest = strncpy n s in if c == 0 then 0 ∷ replicate n 0 else c ∷ rest

-- The last byte of the name, which is not written, is what the array held.
unfoldable pub new_entry : ℕ → HostStat → ℕ → DirectoryEntry
new_entry held s type = record {
  size = s.st_size;
  type = type;
  location = 0;
  mode = s.st_mode;
  mtime = s.st_mtime;
  name = strncpy 255 s.name ++ held ∷ [];
}

-- The test of the loop over readdir: the type of an entry that is kept, or 0.
unfoldable pub kept_type : HostStat → Node → ℕ
kept_type s n = if ignore_file s.name then 0 else elim n [
  | dir _ ↦ type_dir
  | closed_dir ↦ type_dir
  | file _ ↦ type_file
  | closed_file ↦ type_file
  | special ↦ 0
  | no_stat ↦ 0
]

-- fullpath, with a slash between its parts
abbrev pub join : List ℕ → List ℕ → List ℕ
join path name = path ++ slash ∷ name

-- snprintf(fullpath,PATH_MAX,"%s/%s",path,name) keeps the whole path.
abbrev pub whole_path : ℕ → List ℕ → List ℕ → Run (Unit {0})
whole_path max path name = if ltb (length (join path name)) max then done tt else stop path_cut

abbrev pub stat_node : Node → Run (Unit {0})
stat_node no_stat = stop gave_up
stat_node _ = done tt

-- Where the loop over readdir is left: stat fails, or its path is cut off.
unfoldable pub check_dir : ℕ → List ℕ → Listing → Run (Unit {0})
check_dir max path end = done tt
check_dir max path (item s n l) = elim (ignore_file s.name) [
  | true ↦ check_dir max path l
  | false ↦ whole_path max path s.name >> stat_node n >> check_dir max path l
]

-- What the loop over readdir keeps.
unfoldable pub scan_dir : ℕ → Listing → List DirectoryEntry
scan_dir held end = []
scan_dir held (item s n l) =
    let rest = scan_dir held l in
    if kept_type s n == 0 then rest else new_entry held s (kept_type s n) ∷ rest

-- memcpy(&out->data[at],bytes,…)
unfoldable pub overwrite : BuildOutput → ℕ → List ℕ → BuildOutput
overwrite out at bytes = record out {
  contents = take at out.contents ++ (bytes ++ drop (at + length bytes) out.contents);
}

abbrev pub located : DirectoryEntry → ℕ → DirectoryEntry
located e at = record e { location = at }

-- The name in the entry, from which the second loop makes its path: it has to end in a NUL within its
-- array, and to be the whole name.
unfoldable pub name_in_entry : ℕ → List ℕ → Run (Unit {0})
name_in_entry held name =
    let len = strlen (strncpy 255 name ++ held ∷ []) in
    if len == 256 then stop overrun else if len == strlen name then done tt else stop path_cut

-- What process_dir and process_file do with a path. `process_entries` is the second loop of
-- process_dir, over the entries that were kept, in the same order: it gives each its location and
-- appends what is there. Its result holds the entries.
unfoldable mutual
  pub process_path : ℕ → ℕ → List ℕ → BuildOutput → Node → Run BuildOutput
  process_path max held path out (dir l) = do
    _ ← check_dir max path l
    out1 ← output_append out (directory_bytes (scan_dir held l))
    (newdirect, out2) ← process_entries max held path out1 l
    done (overwrite out2 out.size (directory_bytes newdirect))
  process_path max held path out (file pieces) = process_file out pieces
  process_path max held path out special = done out
  process_path max held path out closed_dir = stop gave_up
  process_path max held path out closed_file = stop gave_up
  process_path max held path out no_stat = stop gave_up

  pub process_entries :
      ℕ → ℕ → List ℕ → BuildOutput → Listing → Run (List DirectoryEntry × BuildOutput)
  process_entries max held path out end = done ([], out)
  process_entries max held path out (item s n l) = elim (kept_type s n == 0) [
    | true ↦ process_entries max held path out l
    | false ↦ (do
      _ ← name_in_entry held s.name
      out1 ← process_path max held (join path s.name) out n
      (es, out2) ← process_entries max held path out1 l
      done (located (new_entry held s (kept_type s n)) out.size ∷ es, out2))
  ]

unfoldable pub process_dir : ℕ → ℕ → List ℕ → BuildOutput → Listing → Run BuildOutput
process_dir max held path out l = process_path max held path out (dir l)

-- sizeof(directory_entry)
abbrev pub sizeof_entry : ℕ
sizeof_entry = 276

-- The structure `root` of main: its mode, its time and its name behind "ROOT" and the NUL are not
-- written. `root.size` is set only after the entry has been appended.
unfoldable pub root_entry : ℕ → ℕ → List ℕ → DirectoryEntry
root_entry mode mtime held = record {
  size = 0;
  type = type_dir;
  location = sizeof_entry;
  mode = mode;
  mtime = mtime;
  name = b'R' ∷ b'O' ∷ b'O' ∷ b'T' ∷ 0 ∷ held;
}

-- The part of main for -build, up to the write of the image, for a directory that can be opened.
unfoldable pub build : ℕ → ℕ → List ℕ → DirectoryEntry → Listing → Run BuildOutput
build max held path root l = do
  out ← output_append (record { alloc = 1; size = 0; contents = [] }) (entry_bytes root)
  process_dir max held path out l

-- The image in memory.
abbrev pub image_of : BuildOutput → Image
image_of out a = get_or out.contents a 0
