-- ===== src/Page.antt =====
-- source/page.c, map_and_copy of source/unixproc.c and the page constants of source/kernel.h:
-- physical pages and two-level page tables. `words a` is the 32-bit word of physical memory at the
-- address `a`, a multiple of 4, which is all that this code reads and writes; paging is disabled
-- while it runs. A word `w & PAGE_ADDRESS_MASK` is `w / 4096 * 4096`.
pub mod Free
pub mod Mapping
use adelaideos.Common.{
  ℕ, zero, suc, ◌+◌, ◌-◌, ◌*◌, ◌/◌, ◌%◌, Bool, true, Option, none, some, ltb, ◌==◌, if◌then◌else◌,
  update, test_bit, set_bit, u32_mod, for_below, Run, done, stop, assert_failed, ◌>>=◌, ◌>>◌,
  assert,
}

abbrev pub page_size : ℕ
page_size = 4096

-- PAGE_START is 6 MB.
abbrev pub page_start : ℕ
page_start = 6 * 1048576

-- PAGE_USER or PAGE_SUPERVISOR, and PAGE_READ_WRITE or PAGE_READ_ONLY, as flags.
pub record Rights : Type 0 where
  pub user : Bool
  pub writable : Bool

-- `page_end`, `page_free` (0 is NULL), `npages`, and the memory that they describe.
pub record Pages : Type 0 where
  pub page_end : ℕ
  pub page_free : ℕ
  pub npages : ℕ
  pub words : ℕ → ℕ

abbrev pub store : Pages → ℕ → ℕ → Pages
store p a v = record p { words = update p.words a v }

unfoldable pub zero_page : ℕ → Pages → Pages
zero_page address p = for_below 1024 (λ i q. store q (address + 4 * i) 0) p

unfoldable pub alloc_page : Pages → ℕ × Pages
alloc_page p =
    if p.page_free == 0
    then (
      p.page_end,
      zero_page p.page_end (record p {
        npages = (p.npages + 1) % u32_mod;
        page_end = (p.page_end + page_size) % u32_mod;
      }),
    )
    else (
      p.page_free,
      zero_page p.page_free
          (record p { npages = (p.npages + 1) % u32_mod; page_free = p.words p.page_free }),
    )

unfoldable pub free_page : Pages → ℕ → Run Pages
free_page p page = do
  assert (ltb 0 p.npages)
  done (record (store p page p.page_free) { npages = p.npages - 1; page_free = page })

abbrev pub dir_index : ℕ → ℕ
dir_index logical = logical / page_size / 1024

abbrev pub tbl_index : ℕ → ℕ
tbl_index logical = logical / page_size % 1024

abbrev pub address_of : ℕ → ℕ
address_of entry = entry / 4096 * 4096

-- `&pdir[i]`, `&ptable[i]`
abbrev pub entry_at : ℕ → ℕ → ℕ
entry_at table i = table + 4 * i

abbrev pub is_present : ℕ → Bool
is_present entry = test_bit 0 entry

-- `physical|PAGE_PRESENT|access|readwrite`
unfoldable pub make_entry : ℕ → Rights → ℕ
make_entry physical r =
    let e = set_bit 0 physical in
    let e = if r.user then set_bit 2 e else e in if r.writable then set_bit 1 e else e

abbrev pub is_aligned : ℕ → Bool
is_aligned a = 0 == a % page_size

-- The first half of `map_page`: the table of this part of the directory, made if it is missing.
unfoldable pub ensure_table : Pages → ℕ → ℕ → Pages
ensure_table p pdir i =
    if is_present (p.words (entry_at pdir i))
    then p
    else (let (dirpage, q) = alloc_page p in
        store q (entry_at pdir i) (make_entry dirpage (record { user = true; writable = true })))

unfoldable pub map_page : Pages → ℕ → ℕ → ℕ → Rights → Run Pages
map_page p pdir logical physical r = do
  assert (is_aligned logical)
  assert (is_aligned physical)
  let q = ensure_table p pdir (dir_index logical)
  let ptable = address_of (q.words (entry_at pdir (dir_index logical)))
  done (store q (entry_at ptable (tbl_index logical)) (make_entry physical r))

-- The entry of the page table for this address, if the directory has the table and the entry is
-- present.
abbrev pub find_entry : Pages → ℕ → ℕ → Option ℕ
find_entry p pdir logical =
    let ptable = address_of (p.words (entry_at pdir (dir_index logical))) in
    if is_present (p.words (entry_at pdir (dir_index logical)))
    then (if is_present (p.words (entry_at ptable (tbl_index logical)))
        then some (entry_at ptable (tbl_index logical))
        else none)
    else none

-- `none` is the return value 0, `some` the value 1 with what goes to `*phys`.
unfoldable pub lookup_page : Pages → ℕ → ℕ → Run (Option ℕ)
lookup_page p pdir logical = do
  assert (is_aligned logical)
  done (elim (find_entry p pdir logical) [ none ↦ none | some e ↦ some (address_of (p.words e)) ])

unfoldable pub unmap_and_free_page : Pages → ℕ → ℕ → Run Pages
unmap_and_free_page p pdir logical = do
  assert (is_aligned logical)
  elim (find_entry p pdir logical) [
    | none ↦ done p
    | some e ↦ (do q ← free_page p (address_of (p.words e)); done (store q e 0))
  ]

-- The loops over addresses count the pages left: (end - start + 4095) / 4096 for
-- for (addr = start; addr < end; addr += PAGE_SIZE).
abbrev pub pages_between : ℕ → ℕ → ℕ
pages_between start end = (end - start + 4095) / page_size

unfoldable pub identity_loop : ℕ → Pages → ℕ → ℕ → Rights → Run Pages
identity_loop zero p pdir addr r = done p
identity_loop (suc n) p pdir addr r = do
  p ← map_page p pdir addr addr r
  identity_loop n p pdir (addr + page_size) r

unfoldable pub identity_map : Pages → ℕ → ℕ → ℕ → Rights → Run Pages
identity_map p pdir start end r = identity_loop (pages_between start end) p pdir start r

unfoldable pub new_pages_loop : ℕ → Pages → ℕ → ℕ → Run Pages
new_pages_loop zero p pdir addr = done p
new_pages_loop (suc n) p pdir addr = do
  let (page, p) = alloc_page p
  p ← map_page p pdir addr page (record { user = true; writable = true })
  new_pages_loop n p pdir ((addr + page_size) % u32_mod)

unfoldable pub map_new_pages : Pages → ℕ → ℕ → ℕ → Run Pages
map_new_pages p pdir base npages = do assert (is_aligned base); new_pages_loop npages p pdir base

-- The loops of `kill_process` and `syscall_execve` that unmap a segment.
unfoldable pub unmap_loop : ℕ → Pages → ℕ → ℕ → Run Pages
unmap_loop zero p pdir addr = done p
unmap_loop (suc n) p pdir addr = do
  p ← unmap_and_free_page p pdir addr
  unmap_loop n p pdir (addr + page_size)

unfoldable pub unmap_range : Pages → ℕ → ℕ → ℕ → Run Pages
unmap_range p pdir start end = unmap_loop (pages_between start end) p pdir start

unfoldable pub free_tables : ℕ → ℕ → Pages → ℕ → Run Pages
free_tables zero i p pdir = done p
free_tables (suc n) i p pdir = do
  p ←
      if is_present (p.words (entry_at pdir i))
      then free_page p (address_of (p.words (entry_at pdir i)))
      else done p
  free_tables n (i + 1) p pdir

unfoldable pub free_page_dir : Pages → ℕ → Run Pages
free_page_dir p pdir = do p ← free_tables 1024 0 p pdir; free_page p pdir

-- memmove of a page, word by word
unfoldable pub copy_page : ℕ → ℕ → Pages → Pages
copy_page to from p = for_below 1024 (λ i q. store q (to + 4 * i) (q.words (from + 4 * i))) p

unfoldable pub copy_loop : ℕ → Pages → ℕ → ℕ → ℕ → Run Pages
copy_loop zero p src_dir dest_dir addr = done p
copy_loop (suc n) p src_dir dest_dir addr = do
  let (page, p) = alloc_page p
  p ← map_page p dest_dir addr page (record { user = true; writable = true })
  src ← lookup_page p src_dir addr
  p ← elim src [ none ↦ stop assert_failed | some phys ↦ done (copy_page page phys p) ]
  copy_loop n p src_dir dest_dir (addr + page_size)

unfoldable pub map_and_copy : Pages → ℕ → ℕ → ℕ → ℕ → Run Pages
map_and_copy p src_dir dest_dir start end = do
  assert (is_aligned start)
  assert (is_aligned end)
  copy_loop (pages_between start end) p src_dir dest_dir start
