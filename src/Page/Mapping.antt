-- ===== src/Page/Mapping.antt =====
-- Pages that are mapped are found again, and mapping one page changes no other.
use adelaideos.Common.{
  ℕ, ◌%◌, ◌<◌, ◌≡◌, ◌≢◌, ◌⊎◌, inl, inr, true, none, some, if◌then◌else◌, eq_or_ne, Bool-cases,
  eq→==, update_self, update-ne, done, ◌>>◌, assert, arith, refl, ap, sym, ◌∙◌, u32_mod, Run,
  Option,
}
use adelaideos.Page.{
  Pages, Rights, page_size, dir_index, tbl_index, address_of, entry_at, is_present, make_entry,
  is_aligned, store, ensure_table, map_page, lookup_page,
}

make_entry_lem :
    (a : ℕ) (r : Rights)
    → a % page_size ≡ 0
    → (is_present (make_entry a r) ≡ true) × (address_of (make_entry a r) ≡ a)
unfolding make_entry
make_entry_lem a r h = elim (Bool-cases r.user) [
  | inl u ↦ elim (Bool-cases r.writable) [
    | inl w ↦ rw (u, w) (ground arith, ground arith)
    | inr w ↦ rw (u, w) (ground arith, ground arith)
  ]
  | inr u ↦ elim (Bool-cases r.writable) [
    | inl w ↦ rw (u, w) (ground arith, ground arith)
    | inr w ↦ rw (u, w) (ground arith, ground arith)
  ]
]

-- The page table of part `i` of a directory.
abbrev pub table_of : Pages → ℕ → ℕ → ℕ
table_of p pdir i = address_of (p.words (entry_at pdir i))

abbrev pub HasTable : Pages → ℕ → ℕ → Type 0
HasTable p pdir i = is_present (p.words (entry_at pdir i)) ≡ true

-- The directory and its page tables are different pages.
pub record IsDirectory (p : Pages) (pdir : ℕ) : Type 0 where
  pub aligned : pdir % page_size ≡ 0
  pub outside : (i : ℕ) → i < 1024 → HasTable p pdir i → table_of p pdir i ≢ pdir
  pub apart :
      (i j : ℕ)
      → i < 1024
      → j < 1024
      → i ≢ j
      → HasTable p pdir i
      → HasTable p pdir j
      → table_of p pdir i ≢ table_of p pdir j

-- Entries of different pages, or different entries of one page, are different words.
entries_apart :
    (a b i j : ℕ)
    → a % page_size ≡ 0
    → b % page_size ≡ 0
    → i < 1024
    → j < 1024
    → (a ≢ b) ⊎ (i ≢ j)
    → entry_at a i ≢ entry_at b j
entries_apart a b i j ha hb hi hj (inl n) = omega arith
entries_apart a b i j ha hb hi hj (inr n) = omega arith

address_of-aligned : (e : ℕ) → address_of e % page_size ≡ 0
address_of-aligned e = omega arith

-- Different pages of one part of the address space have different entries.
tbl_index-ne :
    (l o : ℕ)
    → l % page_size ≡ 0
    → o % page_size ≡ 0
    → l ≢ o
    → dir_index l ≡ dir_index o
    → tbl_index l ≢ tbl_index o
tbl_index-ne l o hl ho n e = omega arith

-- A lookup reads one entry of the directory, and one of the table.
abbrev found : ℕ → ℕ → ℕ → Run (Option ℕ)
found l d t = do
  assert (is_aligned l)
  done (if is_present d then (if is_present t then some (address_of t) else none) else none)

found_lem :
    (p : Pages) (pdir l d t : ℕ)
    → p.words (entry_at pdir (dir_index l)) ≡ d
    → p.words (entry_at (address_of d) (tbl_index l)) ≡ t
    → lookup_page p pdir l ≡ found l d t
unfolding lookup_page
found_lem p pdir l d t ed et = elim (Bool-cases (is_present d)) [
  | inl pd ↦ elim (Bool-cases (is_present t)) [
    | inl pt ↦ rw (ed, pd, et, pt, et) refl
    | inr pt ↦ rw (ed, pd, et, pt) refl
  ]
  | inr pd ↦ rw (ed, pd) refl
]

lookup_page-frame :
    (p q : Pages) (pdir l : ℕ)
    → q.words (entry_at pdir (dir_index l)) ≡ p.words (entry_at pdir (dir_index l))
    → (HasTable p pdir (dir_index l)
        → q.words (entry_at (table_of p pdir (dir_index l)) (tbl_index l))
          ≡ p.words (entry_at (table_of p pdir (dir_index l)) (tbl_index l)))
    → lookup_page q pdir l ≡ lookup_page p pdir l
lookup_page-frame p q pdir l e f =
    let d = p.words (entry_at pdir (dir_index l)) in
    let t = p.words (entry_at (address_of d) (tbl_index l)) in
    let t' = q.words (entry_at (address_of d) (tbl_index l)) in
    let same : found l d t' ≡ found l d t = elim (Bool-cases (is_present d)) [
      | inl pd ↦ ap (found l d) (f pd)
      | inr pd ↦ rw pd refl
    ] in
    found_lem q pdir l d t' e refl ∙ same ∙ sym (found_lem p pdir l d t refl refl)

-- For aligned addresses, where the directory is well formed and has a table for the logical
-- address, mapping a page succeeds; the page is found at its address, every other address is mapped
-- as before, and the directory stays well formed.
pub map_page-lookup_page :
    (p : Pages) (pdir logical physical : ℕ) (r : Rights)
    → IsDirectory p pdir
    → logical < u32_mod
    → logical % page_size ≡ 0
    → physical % page_size ≡ 0
    → HasTable p pdir (dir_index logical)
    → (q : Pages) × (map_page p pdir logical physical r ≡ done q)
      × (lookup_page q pdir logical ≡ done (some physical))
      × ((other : ℕ)
          → other < u32_mod
          → other % page_size ≡ 0
          → logical ≢ other
          → lookup_page q pdir other ≡ lookup_page p pdir other)
      × IsDirectory q pdir
unfolding map_page ensure_table lookup_page
map_page-lookup_page p pdir logical physical r d hl al aph present =
    let t = table_of p pdir (dir_index logical) in
    let ta = address_of-aligned (p.words (entry_at pdir (dir_index logical))) in
    let at = entry_at t (tbl_index logical) in
    let w = make_entry physical r in
    let q : Pages = store p at w in
    let out = d.outside (dir_index logical) (omega arith) present in
    let kept : (i : ℕ) → i < 1024 → q.words (entry_at pdir i) ≡ p.words (entry_at pdir i) = λ i lt.
      update-ne p.words at (entry_at pdir i) w
        (entries_apart t pdir (tbl_index logical) i ta d.aligned (omega arith) lt (inl out)) in
    let own : q.words at ≡ w = update_self p.words at w in
    let m = make_entry_lem physical r aph in
    (
      q,
      rw (eq→== 0 (logical % page_size) (sym al), eq→== 0 (physical % page_size) (sym aph), present)
          refl,
      found_lem q pdir logical (p.words (entry_at pdir (dir_index logical))) w
            (kept (dir_index logical) (omega arith)) own
          ∙ rw (eq→== 0 (logical % page_size) (sym al), present, m.0, m.1) refl,
      (λ other lt ao ne.
          lookup_page-frame p q pdir other (kept (dir_index other) (omega arith)) (λ have.
            update-ne p.words at (entry_at (table_of p pdir (dir_index other)) (tbl_index other)) w
              (entries_apart t (table_of p pdir (dir_index other)) (tbl_index logical)
                (tbl_index other) ta
                (address_of-aligned (p.words (entry_at pdir (dir_index other)))) (omega arith)
                (omega arith)
                (elim (eq_or_ne (dir_index logical) (dir_index other)) [
                  | inl e ↦ inr (tbl_index-ne logical other al ao ne e)
                  | inr n ↦ inl (
                      d.apart (dir_index logical) (dir_index other) (omega arith) (omega arith) n
                        present have)
                ])))),
      record {
        aligned = d.aligned;
        outside = λ i lt have. rw (kept i lt) (d.outside i lt (rw (kept i lt) at have));
        apart = λ i j li lj n hi hj.
            rw (kept i li, kept j lj)
              (d.apart i j li lj n (rw (kept i li) at hi) (rw (kept j lj) at hj));
      },
    )
