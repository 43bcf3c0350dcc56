-- ===== src/Tests/Memory.antt =====
-- Examples for the buddy allocator, the pages, and the checks of pointers and segments.
use adelaideos.Common.{
  ℕ, ◌+◌, ◌*◌, ◌^◌, ◌%◌, ◌≤◌, ◌<◌, ◌≡◌, ◌≢◌, ◌↔◌, true, some, [], ◌∷◌, refl, arith, done, stop,
  no_fuel, u32_mod,
}
use adelaideos.Kernel.{Process, zero_process}
use adelaideos.Buddy.{mforsize, mforsize_loop, get_buddy}
use adelaideos.Buddy.Sizes.{mforsize-rounded, mforsize_loop-endless, get_buddy-number}
use adelaideos.Page.{Pages, page_size, alloc_page, free_page, map_page, lookup_page}
use adelaideos.Page.Free.{IsFree, IsZeroed, alloc_page-IsFree, alloc_page-fresh, free_page-IsFree}
use adelaideos.Page.Mapping.{HasTable, IsDirectory, map_page-lookup_page}
use adelaideos.Pointers.{valid_pointer}
use adelaideos.Pointers.Bounds.{InSegment, valid_pointer-InSegment}
use adelaideos.Segmentation.{GdtEntry, Gdt, gdt_set_gate}
use adelaideos.Segmentation.Gates.{base_of, limit_of, gdt_set_gate-decoded}
use adelaideos.Tests.States.{halves, memory}

mforsize-rounded_example :
    (m : ℕ) × (mforsize halves 300 ≡ done m)
    × (8 ≤ m)
    × (300 ≤ 2 ^ m)
    × ((x : ℕ) → 8 ≤ x → 300 ≤ 2 ^ x → m ≤ x)
mforsize-rounded_example = mforsize-rounded halves 300 8 (omega arith) (omega arith) (omega arith)

mforsize_loop-endless_example : mforsize_loop 100 1 (2 ^ 31) 0 ≡ stop no_fuel
mforsize_loop-endless_example = mforsize_loop-endless 100 (2 ^ 31) (omega arith)

get_buddy-number_example : get_buddy halves (1 * 2 ^ 9) ≡ done (0 * 2 ^ 9)
get_buddy-number_example = get_buddy-number halves 1 9 refl (omega arith) (omega arith)

memory-IsFree : IsFree memory (0x600000 ∷ [])
memory-IsFree = record {
  chain = (refl, omega arith, refl);
  aligned = (refl, tt);
  below = (omega arith, tt);
  apart = (tt, tt);
}

alloc_page-IsFree_example :
    ((alloc_page memory).0 ≡ 0x600000)
    × Unit {0}
    × IsFree (alloc_page memory).1 []
    × IsZeroed 0x600000 memory.words (Pages.words (alloc_page memory).1)
alloc_page-IsFree_example = alloc_page-IsFree memory 0x600000 [] memory-IsFree

abbrev used_up : Pages
used_up = record memory { page_free = 0 }

used_up-IsFree : IsFree used_up []
used_up-IsFree = record { chain = refl; aligned = tt; below = tt; apart = tt }

alloc_page-fresh_example :
    ((alloc_page used_up).0 ≡ 0x603000)
    × (Pages.page_end (alloc_page used_up).1 ≡ 0x604000)
    × IsFree (alloc_page used_up).1 []
    × IsZeroed 0x603000 used_up.words (Pages.words (alloc_page used_up).1)
alloc_page-fresh_example = alloc_page-fresh used_up used_up-IsFree (omega arith)

free_page-IsFree_example :
    (q : Pages) × (free_page memory 0x602000 ≡ done q)
    × (q.npages ≡ 1)
    × IsFree q (0x602000 ∷ 0x600000 ∷ [])
free_page-IsFree_example =
    free_page-IsFree memory 0x602000 (0x600000 ∷ []) memory-IsFree (omega arith) (omega arith) refl
      (omega arith) (omega arith, tt)

-- Only the first entry of the directory is present.
one_table : (i : ℕ) → HasTable memory 0x601000 i → i ≡ 0
one_table i h = ground arith

memory-IsDirectory : IsDirectory memory 0x601000
memory-IsDirectory = record {
  aligned = refl;
  outside = λ i lt h e. let z = one_table i h in let f = rw z at e in omega (arith, f);
  apart = λ i j li lj n hi hj e. omega (arith, n, one_table i hi, one_table j hj);
}

map_page-lookup_page_example :
    (q : Pages) × (map_page memory 0x601000 0x3000 0x600000
        (record { user = true; writable = true })
      ≡ done q)
    × (lookup_page q 0x601000 0x3000 ≡ done (some 0x600000))
    × ((other : ℕ)
        → other < u32_mod
        → other % page_size ≡ 0
        → 0x3000 ≢ other
        → lookup_page q 0x601000 other ≡ lookup_page memory 0x601000 other)
    × IsDirectory q 0x601000
map_page-lookup_page_example =
    map_page-lookup_page memory 0x601000 0x3000 0x600000 (record { user = true; writable = true })
      memory-IsDirectory (omega arith) refl refl refl

abbrev small : Process
small = record zero_process { stack_start = 0x1000; stack_end = 0x2000 }

valid_pointer-InSegment_example :
    (valid_pointer small 0x1800 0x800 ≡ true)
    ↔ ((0x1800 + 0x800 < u32_mod) × InSegment small 0x1800 (0x1800 + 0x800))
valid_pointer-InSegment_example =
    valid_pointer-InSegment small 0x1800 0x800 (omega arith) (omega arith) (omega arith)

abbrev no_gates : Gdt
no_gates i = record {
  limit_low = 0;
  base_low = 0;
  base_middle = 0;
  seg_type = 0;
  desc_type = 0;
  dpl = 0;
  present = 0;
  limit_high = 0;
  avl = 0;
  op64 = 0;
  opsize = 0;
  granularity = 0;
  base_high = 0;
}

gdt_set_gate-decoded_example :
    (base_of (gdt_set_gate no_gates 5 0x12345678 0x123456DF 3 0 9 5) ≡ 0x12345678)
    × (limit_of (gdt_set_gate no_gates 5 0x12345678 0x123456DF 3 0 9 5) ≡ 0x456DF)
    × (GdtEntry.present (gdt_set_gate no_gates 5 0x12345678 0x123456DF 3 0 9 5) ≡ 1)
    × ((other : ℕ)
        → 5 ≢ other
        → gdt_set_gate no_gates 5 0x12345678 0x123456DF 3 0 9 other ≡ no_gates other)
gdt_set_gate-decoded_example =
    gdt_set_gate-decoded no_gates 5 0x12345678 0x123456DF 3 0 9 (omega arith) (omega arith)
