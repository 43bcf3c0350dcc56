-- ===== src/UserMemory.antt =====
-- Memory at logical addresses: what the processor's paging does with the tables that source/page.c
-- builds. The kernel reads and writes the memory of the current process through it.
use adelaideos.Common.{
  ℕ, zero, suc, ◌+◌, ◌-◌, ◌*◌, ◌/◌, ◌%◌, ◌^◌, none, some, List, [], ◌∷◌, Run, done, stop,
  page_fault, ◌>>=◌, u32_mod,
}
use adelaideos.Page.{Pages, page_size, find_entry, address_of, store}
use adelaideos.Kernel.{Kernel}
use adelaideos.Process.{current_pid}

-- The physical address.
unfoldable pub translate : Pages → ℕ → ℕ → Run ℕ
translate p pdir a = elim (find_entry p pdir (a / page_size * page_size)) [
  | none ↦ stop page_fault
  | some e ↦ done (address_of (p.words e) + a % page_size)
]

abbrev byte_unit : ℕ → ℕ
byte_unit phys = 256 ^ (phys % 4)

unfoldable pub load_byte : Pages → ℕ → ℕ
load_byte p phys = p.words (phys / 4 * 4) / byte_unit phys % 256

unfoldable pub store_byte : Pages → ℕ → ℕ → Pages
store_byte p phys v =
    store p (phys / 4 * 4)
      (p.words (phys / 4 * 4) - load_byte p phys * byte_unit phys + v % 256 * byte_unit phys)

-- The bytes at `a`, `a + 1`, … of the process whose directory is `pdir`.
unfoldable pub load_bytes : ℕ → Pages → ℕ → ℕ → Run (List ℕ)
load_bytes zero p pdir a = done []
load_bytes (suc n) p pdir a = do
  phys ← translate p pdir a
  rest ← load_bytes n p pdir ((a + 1) % u32_mod)
  done (load_byte p phys ∷ rest)

unfoldable pub store_bytes : List ℕ → Pages → ℕ → ℕ → Run Pages
store_bytes [] p pdir a = done p
store_bytes (b ∷ bs) p pdir a = do
  phys ← translate p pdir a
  store_bytes bs (store_byte p phys b) pdir ((a + 1) % u32_mod)

unfoldable pub copy_in : Kernel → ℕ → ℕ → Run (List ℕ)
copy_in k a count = do i ← current_pid k; load_bytes count k.pages (k.processes i).pdir a

unfoldable pub copy_out : Kernel → ℕ → List ℕ → Run Kernel
copy_out k a bytes = do
  i ← current_pid k
  p ← store_bytes bytes k.pages (k.processes i).pdir a
  done (record k { pages = p })
