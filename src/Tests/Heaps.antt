-- ===== src/Tests/Heaps.antt =====
-- Examples for allocation and freeing in an area of the buddy allocator.
use adelaideos.Common.{
  ℕ, ◌+◌, ◌*◌, ◌^◌, ◌≤◌, ◌<◌, ◌≡◌, refl, ◌⊎◌, inr, true, false, some, List, [], update, update-ne,
  eq_or_ne, inl, Run, done, stop, assert_failed, arith, ap,
}
use adelaideos.Buddy.{
  BlockInfo, MemArea, empty, buddy_init, buddy_alloc, buddy_free, mforsize, mforsize_loop,
  find_larger, refill, split_loop, split_block, halve_block, put_halves, take_block, mark_block,
  add_to_freelist, remove_from_freelist, remove_loop, read_ptr, write_ptr,
}
use adelaideos.Buddy.Tiles.{mark-AreTiles}
use adelaideos.Buddy.Heap.{IsHeap}
use adelaideos.Buddy.Split.{SameUsed}
use adelaideos.Buddy.Take.{Takes}
use adelaideos.Buddy.Apart.{AreApart}
use adelaideos.Buddy.Request.{buddy_alloc-IsHeap}
use adelaideos.Buddy.Release.{Gives, buddy_free-IsHeap}
use adelaideos.Buddy.Area.{first_lists, buddy_init-IsHeap, buddy_free-buddy_alloc}

-- An area of 1 KB at address 4096, in one free block.
abbrev fresh : MemArea
fresh = buddy_init 10 4096 (λ _. 0)

buddy_init-IsHeap_example : IsHeap (buddy_init 10 4096 (λ _. 0)) (first_lists 10) []
buddy_init-IsHeap_example = buddy_init-IsHeap 10 4096 (λ _. 0) (omega arith) (omega arith)

fresh-IsHeap : IsHeap fresh (first_lists 10) []
fresh-IsHeap = buddy_init-IsHeap 10 4096 (λ _. 0) (omega arith) (omega arith)

abbrev area_of : Run (ℕ × MemArea) → MemArea
area_of (done r) = r.1
area_of (stop e) = fresh

abbrev address_of : Run (ℕ × MemArea) → ℕ
address_of (done r) = r.0
address_of (stop e) = 0

-- 300 bytes of the new area: a block of 512 bytes, after one split.
abbrev small : Run (ℕ × MemArea)
small = buddy_alloc fresh 300

small_done : small ≡ done (4096, area_of small)
unfolding buddy_init buddy_alloc mforsize mforsize_loop refill find_larger split_loop split_block
    halve_block put_halves take_block mark_block add_to_freelist remove_from_freelist remove_loop
    read_ptr write_ptr
small_done = refl

buddy_free-buddy_alloc_example :
    (ma : MemArea) × (free : ℕ → List ℕ) × (buddy_free (area_of small) (some 4096) ≡ done ma)
    × IsHeap ma free []
    × SameUsed fresh ma
buddy_free-buddy_alloc_example =
    buddy_free-buddy_alloc fresh (first_lists 10) 300 4096 (area_of small) fresh-IsHeap
      (omega arith) small_done

buddy_alloc-IsHeap_example :
    ((buddy_alloc fresh 300 ≡ stop assert_failed)
      × ((k : ℕ)
          → 0 < (fresh.blocks k).sizem
          → 300 < 2 ^ (fresh.blocks k).sizem
          → (fresh.blocks k).used ≡ true))
    ⊎ ((ma : MemArea) × (free : ℕ → List ℕ) × (i : ℕ) × (m : ℕ) × (buddy_alloc fresh 300
          ≡ done (i * 2 ^ fresh.lower + fresh.mem, ma))
        × (300 < 2 ^ m)
        × IsHeap ma free []
        × Takes fresh ma i m
        × (i * 2 ^ fresh.lower + 2 ^ m ≤ 2 ^ fresh.upper)
        × ((k : ℕ)
            → (fresh.blocks k).used ≡ true
            → AreApart fresh.lower i m k (fresh.blocks k).sizem))
buddy_alloc-IsHeap_example =
    buddy_alloc-IsHeap fresh (first_lists 10) 300 fresh-IsHeap (omega arith)

abbrev in_use : BlockInfo
in_use = record { sizem = 10; used = true }

-- The area when its one block is in use.
abbrev full : MemArea
full = record fresh { blocks = update fresh.blocks 0 in_use; freelist = λ _. empty }

full-IsHeap : IsHeap full (λ _. []) []
unfolding buddy_init
full-IsHeap = record {
  lists = record { chain = λ _. refl; apart = λ _ _ _. tt };
  tiles = mark-AreTiles 8 10 fresh.blocks 0 in_use fresh-IsHeap.tiles (omega arith) refl;
  hold = record {
    sound = λ _. tt;
    complete = λ i live idle others. elim (eq_or_ne 0 i) [
      | inl e ↦ absurd (cc (e, idle))
      | inr n ↦ absurd (
          let outer = ap (λ (b : BlockInfo). b.sizem) (update-ne fresh.blocks 0 i in_use n) in
          let inner =
            ap (λ (b : BlockInfo). b.sizem)
              (update-ne (λ _. record { sizem = 0; used = false }) 0 i
                (record { sizem = 10; used = false }) n) in
          omega (arith, live, outer, inner))
    ];
  };
  granule = omega arith;
  ordered = omega arith;
  short = omega arith;
}

buddy_free-IsHeap_example :
    (ma : MemArea) × (free : ℕ → List ℕ) × (buddy_free full (some (0 * 2 ^ full.lower + full.mem))
      ≡ done ma)
    × IsHeap ma free []
    × Gives full ma 0
buddy_free-IsHeap_example = buddy_free-IsHeap full (λ _. []) 0 full-IsHeap refl
