-- ===== src/Filesystem.antt =====
-- source/filesystem.c and filesystem.h: directories in the image, and paths. The image is a table of
-- bytes. A path is a list of bytes; while relative_to_absolute builds one, its last byte comes first.
pub mod Lookup
use adelaideos.Common.{
  ℕ, zero, suc, ◌+◌, ◌-◌, ◌*◌, ◌^◌, Bool, true, false, not, ◌&&◌, Option, none, some, List, [], ◌∷◌,
  length, take, drop, ltb, ◌==◌, if◌then◌else◌,
}
use mathlib.Core.List.{reverse}
use adelaideos.Libc.{strlen, strncmp, is_zero}

abbrev pub Image : Type 0
Image = ℕ → ℕ

unfoldable pub read_u32 : Image → ℕ → ℕ
read_u32 fs a = fs a + fs (a + 1) * 2 ^ 8 + fs (a + 2) * 2 ^ 16 + fs (a + 3) * 2 ^ 24

unfoldable pub read_bytes : Image → ℕ → ℕ → List ℕ
read_bytes fs zero a = []
read_bytes fs (suc n) a = fs a ∷ read_bytes fs n (a + 1)

abbrev pub type_dir : ℕ
type_dir = 1

abbrev pub type_file : ℕ
type_file = 2

-- The fields of the packed `directory_entry` at an offset.
abbrev pub entry_size : Image → ℕ → ℕ
entry_size fs e = read_u32 fs e

abbrev pub entry_type : Image → ℕ → ℕ
entry_type fs e = read_u32 fs (e + 4)

abbrev pub entry_location : Image → ℕ → ℕ
entry_location fs e = read_u32 fs (e + 8)

abbrev pub entry_mode : Image → ℕ → ℕ
entry_mode fs e = read_u32 fs (e + 12)

abbrev pub entry_mtime : Image → ℕ → ℕ
entry_mtime fs e = read_u32 fs (e + 16)

-- The array `name`.
unfoldable pub entry_name : Image → ℕ → List ℕ
entry_name fs e = read_bytes fs 256 (e + 20)

-- The first `n` bytes from the start of the name on, also behind its array.
unfoldable pub name_bytes : Image → ℕ → ℕ → List ℕ
name_bytes fs e n = read_bytes fs n (e + 20)

-- The string at an address, of which at most `limit` bytes are read.
unfoldable pub string_at : ℕ → Image → ℕ → List ℕ
string_at zero fs a = []
string_at (suc limit) fs a = elim (fs a == 0) [
  | true ↦ []
  | false ↦ fs a ∷ string_at limit fs (a + 1)
]

-- The packed `directory` at an offset: its count, and the offset of an entry.
abbrev pub dir_count : Image → ℕ → ℕ
dir_count fs d = read_u32 fs d

abbrev pub dir_entry : ℕ → ℕ → ℕ
dir_entry d i = d + 4 + 276 * i

-- The name of the entry goes on to the next NUL, wherever that is; `len + 1` bytes tell whether its
-- length is `len`.
abbrev pub has_name : Image → ℕ → List ℕ → ℕ → Bool
has_name fs e name len =
    let s = name_bytes fs e (len + 1) in (strlen s == len) && is_zero (strncmp s name len)

-- The rounds left are `dir->count - i`.
unfoldable pub lookup_loop : ℕ → Image → ℕ → ℕ → List ℕ → ℕ → Option ℕ
lookup_loop zero fs d i name len = none
lookup_loop (suc rounds) fs d i name len =
    let rest = lookup_loop rounds fs d (i + 1) name len in
    if has_name fs (dir_entry d i) name len then some (dir_entry d i) else rest

unfoldable pub lookup : Image → ℕ → List ℕ → ℕ → Option ℕ
lookup fs d name len = lookup_loop (dir_count fs d) fs d 0 name len

abbrev pub slash : ℕ
slash = 47

-- What the loop of get_directory_entry carries: `*entry`, `dir` and `start`; or the error ENOENT.
pub record Walk : Type 0 where
  pub entry : ℕ
  pub dir : ℕ
  pub start : ℕ

-- The end of a component at `pos`. `last` is `pos == len`.
unfoldable pub end_component : Image → List ℕ → Walk → ℕ → Bool → Option Walk
end_component fs path w pos last =
    if ltb w.start pos
    then elim (lookup fs w.dir (drop w.start path) (pos - w.start)) [
      | none ↦ none
      | some e ↦
          if entry_type fs e == type_dir
          then some (record { entry = e; dir = entry_location fs e; start = pos + 1 })
          else if last
          then some (record { entry = e; dir = w.dir; start = pos + 1 })
          else none
    ]
    else some (record w { start = pos + 1 })

-- The list is what is left of `path` from `pos` on.
unfoldable pub walk_loop : Image → List ℕ → Walk → ℕ → List ℕ → Option Walk
walk_loop fs path w pos [] = end_component fs path w pos true
walk_loop fs path w pos (c ∷ cs) = elim (c == slash) [
  | true ↦ elim (end_component fs path w pos false) [
    | none ↦ none
    | some w' ↦ walk_loop fs path w' (pos + 1) cs
  ]
  | false ↦ walk_loop fs path w (pos + 1) cs
]

-- `none` is -ENOENT, `some` the offset of the entry. The root's entry is at offset 0.
unfoldable pub get_directory_entry : Image → List ℕ → Option ℕ
get_directory_entry fs path =
    elim (walk_loop fs path (record { entry = 0; dir = entry_location fs 0; start = 0 }) 0 path) [
      | none ↦ none
      | some w ↦ some w.entry
    ]

-- The string `abs` with its last byte first; a string of one byte is kept.
unfoldable pub strip_name : List ℕ → List ℕ
strip_name [] = []
strip_name (c ∷ []) = c ∷ []
strip_name (c ∷ d ∷ rest) =
    let shorter = strip_name (d ∷ rest) in if c == slash then c ∷ d ∷ rest else shorter

unfoldable pub strip_slash : List ℕ → List ℕ
strip_slash [] = []
strip_slash (c ∷ []) = c ∷ []
strip_slash (c ∷ d ∷ rest) = d ∷ rest

abbrev ends_in_slash : List ℕ → Bool
ends_in_slash [] = false
ends_in_slash (c ∷ _) = c == slash

-- while ((abs_len < max-1) && (rpos < pos)) abs[abs_len++] = rel[rpos++];
unfoldable pub push_bytes : ℕ → List ℕ → List ℕ → List ℕ
push_bytes max abs [] = abs
push_bytes max abs (c ∷ cs) =
    push_bytes max (if ltb (length abs) (max - 1) then c ∷ abs else abs) cs

-- `component` is the `namelen` bytes at `&rel[start]`.
unfoldable pub apply_component : ℕ → List ℕ → List ℕ → List ℕ
apply_component max abs component =
    if (length component == 1) && is_zero (strncmp component (46 ∷ []) 1)
    then abs
    else if (length component == 2) && is_zero (strncmp component (46 ∷ 46 ∷ []) 2)
    then strip_slash (strip_name abs)
    else if ltb (length abs) (max - 1) && not (ends_in_slash abs)
    then push_bytes max (slash ∷ abs) component
    else push_bytes max abs component

-- The component from `start` up to `pos`, if there is one.
abbrev finish : ℕ → List ℕ → List ℕ → ℕ → ℕ → List ℕ
finish max abs rel start pos =
    if ltb start pos then apply_component max abs (take (pos - start) (drop start rel)) else abs

-- The last list is what is left of `rel` from `pos` on.
unfoldable pub resolve_loop : ℕ → List ℕ → List ℕ → ℕ → ℕ → List ℕ → List ℕ
resolve_loop max abs rel start pos [] = finish max abs rel start pos
resolve_loop max abs rel start pos (c ∷ cs) =
    resolve_loop max (if c == slash then finish max abs rel start pos else abs) rel
      (if c == slash then pos + 1 else start) (pos + 1) cs

-- `snprintf(abs,max,…)` keeps `max - 1` bytes.
unfoldable pub relative_to_absolute : List ℕ → List ℕ → ℕ → List ℕ
relative_to_absolute base rel max =
    let abs =
      if ends_in_slash (take 1 rel) then take (max - 1) (slash ∷ []) else take (max - 1) base in
    reverse (resolve_loop max (reverse abs) rel 0 0 rel)
