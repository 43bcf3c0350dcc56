-- ===== src/User/Malloc.antt =====
-- init_userspace_malloc of source/buddy.c: the area of a process, at the start of its data segment.
use adelaideos.Common.{ℕ, ◌+◌, ◌^◌, true, false, [], codes}
use adelaideos.Buddy.{MemArea, buddy_init, buddy_nblocks}
use adelaideos.User.{Program, ◌>>=◌, System, give, exit, texts_of, printf}

-- PROCESS_DATA_BASE
abbrev process_data_base : ℕ
process_data_base = 0x20000000

-- sizeof(memarea)
abbrev memarea_size : ℕ
memarea_size = 144

-- The heap has 2 ^ 20 bytes; a blockinfo has one byte. `links` is what the heap holds at first.
abbrev total_size : ℕ
total_size = 2 ^ 20 + memarea_size + buddy_nblocks 20

module _ {S : Type 0} (sys : System S) where
  unfoldable pub init_userspace_malloc : (ℕ → ℕ) → Program S MemArea
  init_userspace_malloc links = do
    granted ← sys.brk (process_data_base + total_size)
    elim granted [
      | false ↦ (do _ ← printf sys (texts_of []) (codes "brk failed\n"); exit 1)
      | true ↦ give (buddy_init 20 (process_data_base + memarea_size) links)
    ]
