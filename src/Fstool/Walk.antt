-- ===== src/Fstool/Walk.antt =====
-- The walk along a path through the directories that the tool writes.
use adelaideos.Common.{
  ℕ, ◌+◌, ◌-◌, ◌^◌, ◌≤◌, ◌<◌, ◌≡◌, ◌≢◌, ◌∙◌, inl, inr, refl, ap, subst, Bool, true, false, some,
  List, [], ◌∷◌, ◌++◌, All, length, drop, lt→ltb, ◌==◌, eq→==, ne→==, Bool-cases, length-append,
  take-append, drop-append_all, drop-drop, arith,
}
use adelaideos.Filesystem.{
  Image, lookup, type_dir, entry_type, entry_location, Walk, end_component, walk_loop,
  get_directory_entry,
}
use adelaideos.Fstool.{HostStat, Node, dir, Listing, end, item, new_entry, kept_type}
use adelaideos.Fstool.Blocks.{node_bytes}
use adelaideos.Fstool.Reading.{Has}
use adelaideos.Fstool.Found.{IsHostStat, IsListing, IsKept, Contains, Sought, LeadsTo}
use adelaideos.Fstool.Directory.{lookup-Contains}

-- Going on behind a part of the path.
drop-past :
    (k j : ℕ) (path xs ys : List ℕ) → j ≡ k + length xs → drop k path ≡ xs ++ ys → drop j path ≡ ys
drop-past k j path xs ys e h = rw (e, drop-drop k (length xs) path, h) (drop-append_all xs ys)

skip_name :
    (fs : Image) (path : List ℕ) (w : Walk) (pos end_pos : ℕ) (x rest : List ℕ)
    → All (λ c. c ≢ 47) x
    → end_pos ≡ pos + length x
    → walk_loop fs path w pos (x ++ rest) ≡ walk_loop fs path w end_pos rest
unfolding walk_loop
skip_name fs path w pos end_pos [] rest h e = let same : end_pos ≡ pos = omega arith in rw same refl
skip_name fs path w pos end_pos (c ∷ x) rest h e =
    rw (ne→== c 47 h.0, walk_loop) (skip_name fs path w (pos + 1) end_pos x rest h.1 (omega arith))

-- A component of the path that is in the directory.
module _ (fs : Image) (path : List ℕ) (w : Walk) (pos e : ℕ) (some_bytes : w.start < pos)
    (found : lookup fs w.dir (drop w.start path) (pos - w.start) ≡ some e) where
  end_component-last : (w' : Walk) × (end_component fs path w pos true ≡ some w') × (w'.entry ≡ e)
  unfolding end_component
  end_component-last = elim (Bool-cases (entry_type fs e == type_dir)) [
    | inl t ↦ (
      record { entry = e; dir = entry_location fs e; start = pos + 1 },
      rw (lt→ltb w.start pos some_bytes, found, end_component) (rw t refl),
      refl,
    )
    | inr f ↦ (
      record { entry = e; dir = w.dir; start = pos + 1 },
      rw (lt→ltb w.start pos some_bytes, found, end_component) (rw f refl),
      refl,
    )
  ]

  end_component-dir :
      (last : Bool)
      → entry_type fs e ≡ type_dir
      → end_component fs path w pos last
        ≡ some (record { entry = e; dir = entry_location fs e; start = pos + 1 })
  unfolding end_component
  end_component-dir last t =
      rw (lt→ltb w.start pos some_bytes, found, end_component)
        (rw (eq→== (entry_type fs e) type_dir t) refl)

Contains-IsHostStat :
    (l : Listing) (s : HostStat) (n : Node) → IsListing l → Contains l s n → IsHostStat s
Contains-IsHostStat end s n h c = absurd c
Contains-IsHostStat (item t m l) s n h (inl (k, e, _)) = subst IsHostStat e h.0
Contains-IsHostStat (item t m l) s n h (inr (_, c)) = Contains-IsHostStat l s n h.1 c

Contains-IsKept : (l : Listing) (s : HostStat) (n : Node) → Contains l s n → IsKept s n
Contains-IsKept end s n c = absurd c
Contains-IsKept (item t m l) s n (inl (k, e1, e2)) =
    subst (λ r. IsKept r n) e1 (subst (λ r. IsKept t r) e2 k)
Contains-IsKept (item t m l) s n (inr (_, c)) = Contains-IsKept l s n c

kept_type-dir : (s : HostStat) (l : Listing) → IsKept s (dir l) → kept_type s (dir l) ≡ type_dir
unfolding kept_type
kept_type-dir s l k = ground arith

-- The parts of a path, each with a slash in front of it.
abbrev pub path_text : List (List ℕ) → List ℕ
path_text [] = []
path_text (x ∷ xs) = 47 ∷ (x ++ path_text xs)

-- The name `x`, and then the names `ys` one below the other, lead from the listing to `n`, of which
-- `s` is reported; where a name occurs twice, the first entry counts.
abbrev pub Leads : Listing → List ℕ → List (List ℕ) → HostStat → Node → Type 0
Leads l x [] s n = IsListing l × (x ≡ s.name) × Contains l s n
Leads l x (y ∷ ys) s n =
    (t : HostStat) × (m : Listing) × IsListing l
    × (x ≡ t.name)
    × Contains l t (dir m)
    × Leads m y ys s n

sought :
    (path : List ℕ) (p pos : ℕ) (x rest : List ℕ) (s : HostStat)
    → IsHostStat s
    → x ≡ s.name
    → drop p path ≡ x ++ rest
    → pos ≡ p + length x
    → Sought (drop p path) (pos - p) s
sought path p pos x rest s h e cut at =
    let size : pos - p ≡ length x = omega arith in
    record {
      file_name = h.file_name;
      found = rw (cut, size) (take-append x rest) ∙ e;
      size = size ∙ ap length e;
      long = rw (cut, size) (omega (arith, length-append {0} x rest));
    }

walk_loop-end :
    (fs : Image) (path : List ℕ) (w : Walk) (pos : ℕ)
    → walk_loop fs path w pos [] ≡ end_component fs path w pos true
unfolding walk_loop
walk_loop-end fs path w pos = refl

walk_loop-slash :
    (fs : Image) (path : List ℕ) (w w' : Walk) (pos : ℕ) (rest : List ℕ)
    → end_component fs path w pos false ≡ some w'
    → walk_loop fs path w pos (47 ∷ rest) ≡ walk_loop fs path w' (pos + 1) rest
unfolding walk_loop
walk_loop-slash fs path w w' pos rest e = rw (e, walk_loop) refl

pub walk_loop-Leads :
    (fs : Image) (held d p e0 : ℕ) (path : List ℕ) (l : Listing) (x : List ℕ) (ys : List (List ℕ))
    (s : HostStat) (n : Node)
    → held < 256
    → d + length (node_bytes held d (dir l)) ≤ 2 ^ 31
    → Has fs d (node_bytes held d (dir l))
    → drop p path ≡ x ++ path_text ys
    → Leads l x ys s n
    → (w : Walk) × (walk_loop fs path
          (record { entry = e0; dir = d; start = p })
          p
          (x ++ path_text ys)
        ≡ some w)
      × LeadsTo fs held w.entry s n
unfolding new_entry
walk_loop-Leads fs held d p e0 path l x [] s n b fits has cut (hl, e, c) =
    let w : Walk = record { entry = e0; dir = d; start = p } in
    let pos = p + length x in
    let h = Contains-IsHostStat l s n hl c in
    let some_bytes : p < pos = omega (arith, h.file_name.some_byte, ap length e) in
    let (entry, found, leads) =
      lookup-Contains fs held d l (drop p path) (pos - p) s n b hl
        (sought path p pos x [] s h e cut refl) fits has c in
    let (w', ends, at) = end_component-last fs path w pos entry some_bytes found in
    (
      w',
      skip_name fs path w p pos x [] (rw e h.file_name.one_part) refl
          ∙ walk_loop-end fs path w pos
          ∙ ends,
      rw at leads,
    )
walk_loop-Leads fs held d p e0 path l x (y ∷ ys) s n b fits has cut (t, m, hl, e, c, below) =
    let w : Walk = record { entry = e0; dir = d; start = p } in
    let pos = p + length x in
    let rest = y ++ path_text ys in
    let h = Contains-IsHostStat l t (dir m) hl c in
    let some_bytes : p < pos = omega (arith, h.file_name.some_byte, ap length e) in
    let (entry, found, leads) =
      lookup-Contains fs held d l (drop p path) (pos - p) t (dir m) b hl
        (sought path p pos x (47 ∷ rest) t h e cut refl) fits has c in
    let type : entry_type fs entry ≡ type_dir =
      leads.entry.type ∙ kept_type-dir t m (Contains-IsKept l t (dir m) c) in
    let step =
      end_component-dir fs path w pos entry some_bytes found false type
      ∙ ap (λ k. some (record { entry = entry; dir = k; start = pos + 1 })) leads.entry.location in
    let past : drop (pos + 1) path ≡ rest =
      drop-past pos (pos + 1) path (47 ∷ []) rest (omega arith)
        (drop-past p pos path x (47 ∷ rest) refl cut) in
    let (w', runs, there) =
      walk_loop-Leads fs held leads.at (pos + 1) entry path m y ys s n b leads.fits leads.node past
        below in
    (
      w',
      skip_name fs path w p pos x (47 ∷ rest) (rw e h.file_name.one_part) refl
          ∙ walk_loop-slash fs path w (record { entry = entry; dir = leads.at; start = pos + 1 })
              pos rest step
          ∙ runs,
      there,
    )

root_slash :
    (fs : Image) (path : List ℕ) (d : ℕ)
    → end_component fs path (record { entry = 0; dir = d; start = 0 }) 0 false
      ≡ some (record { entry = 0; dir = d; start = 0 + 1 })
unfolding end_component
root_slash fs path d = refl

-- The walk from the root.
pub get_directory_entry-Leads :
    (fs : Image) (held d : ℕ) (l : Listing) (x : List ℕ) (ys : List (List ℕ)) (s : HostStat)
    (n : Node)
    → held < 256
    → entry_location fs 0 ≡ d
    → d + length (node_bytes held d (dir l)) ≤ 2 ^ 31
    → Has fs d (node_bytes held d (dir l))
    → Leads l x ys s n
    → (e : ℕ) × (get_directory_entry fs (path_text (x ∷ ys)) ≡ some e) × LeadsTo fs held e s n
unfolding get_directory_entry
get_directory_entry-Leads fs held d l x ys s n b root fits has leads =
    let path = path_text (x ∷ ys) in
    let rest = x ++ path_text ys in
    let first : Walk = record { entry = 0; dir = d; start = 0 } in
    let next : Walk = record { entry = 0; dir = d; start = 0 + 1 } in
    let (w, runs, there) =
      walk_loop-Leads fs held d (0 + 1) 0 path l x ys s n b fits has refl leads in
    let all = walk_loop-slash fs path first next 0 rest (root_slash fs path d) ∙ runs in
    (w.entry, rw (root, get_directory_entry) (rw all refl), there)
