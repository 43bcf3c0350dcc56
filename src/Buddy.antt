-- ===== src/Buddy.antt =====
-- source/buddy.c and buddy.h: the buddy allocator. A `memarea` is a record; its `blocks` array and
-- `freelist` array are tables. The free lists are threaded through the free blocks themselves:
-- `links b` is the word that the code reads and writes at `ma->mem+b`. An offset is relative to
-- `mem`; `1 << k` is `2 ^ k`. This is the kernel's build, where exhaustion is `assert(0)`.
pub mod FreeList
pub mod Tiles
pub mod Halves
pub mod Entries
pub mod Heap
pub mod Split
pub mod Alloc
pub mod Refill
pub mod Take
pub mod Apart
pub mod Request
pub mod Join
pub mod Joined
pub mod Merge
pub mod Coalesce
pub mod Release
pub mod Area
pub mod Sizes
use adelaideos.Common.{
  ℕ, zero, suc, ◌+◌, ◌-◌, ◌*◌, ◌/◌, ◌%◌, ◌^◌, Bool, true, false, not, ◌&&◌, Option, none, some, ltb,
  leb, ◌==◌, if◌then◌else◌, update, test_bit, set_bit, clear_bit, u32_mod, Run, done, stop, no_fuel,
  assert_failed, ◌>>=◌, ◌>>◌, assert,
}

pub record BlockInfo : Type 0 where
  pub sizem : ℕ
  pub used : Bool

pub record MemArea : Type 0 where
  pub lower : ℕ
  pub upper : ℕ
  pub mem : ℕ
  pub blocks : ℕ → BlockInfo
  pub freelist : ℕ → ℕ
  pub links : ℕ → ℕ

abbrev pub empty : ℕ
empty = 0xFFFF_FFFF

abbrev pub default_lower : ℕ
default_lower = 8

-- The four macros over the `blocks` array. `sizem` is a bit field of 7 bits.
abbrev pub index : MemArea → ℕ → ℕ
index ma b = b / 2 ^ ma.lower

abbrev pub get_sizem : MemArea → ℕ → ℕ
get_sizem ma b = (ma.blocks (index ma b)).sizem

abbrev pub is_used : MemArea → ℕ → Bool
is_used ma b = (ma.blocks (index ma b)).used

abbrev pub set_sizem : MemArea → ℕ → ℕ → MemArea
set_sizem ma b s = record ma {
  blocks = update ma.blocks (index ma b) (record { sizem = s % 2 ^ 7; used = is_used ma b });
}

abbrev pub set_used : MemArea → ℕ → Bool → MemArea
set_used ma b u = record ma {
  blocks = update ma.blocks (index ma b) (record { sizem = get_sizem ma b; used = u });
}

-- `pow2` is an unsigned int, and wraps to 0 behind 2 ^ 31.
unfoldable pub mforsize_loop : ℕ → ℕ → ℕ → ℕ → Run ℕ
mforsize_loop zero pow2 nbytes m = stop no_fuel
mforsize_loop (suc fuel) pow2 nbytes m = elim (leb pow2 nbytes) [
  | true ↦ mforsize_loop fuel (pow2 * 2 % u32_mod) nbytes (m + 1)
  | false ↦ done m
]

-- 33 rounds: `pow2` takes 33 values, 2 ^ 0 to 2 ^ 31 and 0.
unfoldable pub mforsize : MemArea → ℕ → Run ℕ
mforsize ma nbytes = do
  m ← mforsize_loop 33 1 nbytes 0
  done (if leb ma.lower m then m else ma.lower)

unfoldable pub get_buddy : MemArea → ℕ → Run ℕ
get_buddy ma block = do
  let m = get_sizem ma block
  assert (leb ma.lower m && leb m ma.upper)
  done (if test_bit m block then clear_bit m block else set_bit m block)

unfoldable pub add_to_freelist : MemArea → ℕ → ℕ → Run MemArea
add_to_freelist ma m block = do
  assert (leb (block + 2 ^ m) (2 ^ ma.upper))
  done (record ma {
    freelist = update ma.freelist m block;
    links = update ma.links block (ma.freelist m);
  })

-- `ptr` points at `freelist[m]` (`none`) or at the link in a free block.
unfoldable pub read_ptr : MemArea → ℕ → Option ℕ → ℕ
read_ptr ma m none = ma.freelist m
read_ptr ma m (some b) = ma.links b

unfoldable pub write_ptr : MemArea → ℕ → Option ℕ → ℕ → MemArea
write_ptr ma m none v = record ma { freelist = update ma.freelist m v }
write_ptr ma m (some b) v = record ma { links = update ma.links b v }

unfoldable pub remove_loop : ℕ → MemArea → ℕ → ℕ → Option ℕ → Run MemArea
remove_loop zero ma m block ptr = stop no_fuel
remove_loop (suc fuel) ma m block ptr = elim (empty == read_ptr ma m ptr) [
  | true ↦ stop assert_failed
  | false ↦ elim (read_ptr ma m ptr == block) [
    | true ↦ done (write_ptr ma m ptr (ma.links (read_ptr ma m ptr)))
    | false ↦ remove_loop fuel ma m block (some (read_ptr ma m ptr))
  ]
]

-- The fuel: a list holds at most as many blocks as the area has, and ends by `empty`.
unfoldable pub remove_from_freelist : MemArea → ℕ → ℕ → Run MemArea
remove_from_freelist ma m block = remove_loop (2 ^ (ma.upper - ma.lower) + 1) ma m block none

-- for (cm = m+1; cm <= ma->upper; cm++), with the rounds left
unfoldable pub find_larger : ℕ → MemArea → ℕ → Option ℕ
find_larger zero ma cm = none
find_larger (suc rounds) ma cm =
    let rest = find_larger rounds ma (cm + 1) in if empty == ma.freelist cm then rest else some cm

-- Both halves go into their list, the second one first.
unfoldable pub put_halves : MemArea → ℕ → ℕ → ℕ → Run MemArea
put_halves ma m half1 half2 = do
  assert (not (is_used ma half1))
  assert (not (is_used ma half2))
  ma ← add_to_freelist ma m half2
  add_to_freelist ma m half1

-- The body of for (; cm > m; cm--), at `cm` = `m1 + 1`, for the first block of the list of size `cm`.
unfoldable pub halve_block : MemArea → ℕ → ℕ → Run MemArea
halve_block ma m1 block = do
  assert (not (is_used ma block))
  assert (get_sizem ma block == suc m1)
  ma ← remove_from_freelist ma (suc m1) block
  let half2 = block + 2 ^ m1
  let ma = set_sizem ma block m1
  let ma = set_sizem ma half2 m1
  put_halves ma m1 block half2

unfoldable pub split_block : MemArea → ℕ → Run MemArea
split_block ma m1 = halve_block ma m1 (ma.freelist (suc m1))

-- The rounds left are `cm - m`.
unfoldable pub split_loop : ℕ → MemArea → ℕ → Run MemArea
split_loop zero ma m = done ma
split_loop (suc n) ma m = do ma ← split_block ma (m + n); split_loop n ma m

unfoldable pub refill : MemArea → ℕ → Run MemArea
refill ma m = elim (find_larger (ma.upper - m) ma (m + 1)) [
  | none ↦ stop assert_failed
  | some cm ↦ split_loop (cm - m) ma m
]

unfoldable pub mark_block : MemArea → ℕ → ℕ → Run (ℕ × MemArea)
mark_block ma m block = do
  assert (not (empty == block))
  assert (not (is_used ma block))
  assert (get_sizem ma block == m)
  ma ← remove_from_freelist (set_used ma block true) m block
  done (block + ma.mem, ma)

unfoldable pub take_block : MemArea → ℕ → Run (ℕ × MemArea)
take_block ma m = mark_block ma m (ma.freelist m)

unfoldable pub buddy_alloc : MemArea → ℕ → Run (ℕ × MemArea)
buddy_alloc ma nbytes = do
  m ← mforsize ma nbytes
  ma ← if empty == ma.freelist m then refill ma m else done ma
  take_block ma m

-- One round of the loop of `buddy_free`: the two blocks become one.
unfoldable pub merge : MemArea → ℕ → ℕ → ℕ → Run (MemArea × ℕ)
merge ma m block buddy = do
  ma ← remove_from_freelist ma m buddy
  let low = if ltb buddy block then buddy else block
  let high = if ltb buddy block then block else buddy
  done (set_sizem (set_sizem ma low (m + 1)) high 0, low)

-- The rounds left are at least `upper - m`, so the fuel lasts.
unfoldable pub coalesce : ℕ → MemArea → ℕ → ℕ → ℕ → Run (MemArea × ℕ × ℕ)
coalesce zero ma m block buddy = done (ma, m, block)
coalesce (suc n) ma m block buddy =
    elim (ltb m ma.upper && not (is_used ma buddy) && (get_sizem ma buddy == m)) [
      | true ↦ (do
        (ma, block) ← merge ma m block buddy
        buddy ← get_buddy ma block
        coalesce n ma (m + 1) block buddy)
      | false ↦ done (ma, m, block)
    ]

-- What `buddy_free` does from its second assertion on; `m` is the size of the block.
unfoldable pub release_block : MemArea → ℕ → ℕ → Run MemArea
release_block ma m block = do
  assert (leb ma.lower m && leb m ma.upper)
  assert (is_used ma block)
  let ma = set_used ma block false
  buddy ← get_buddy ma block
  (ma, m, block) ← coalesce (ma.upper - m) ma m block buddy
  add_to_freelist ma m block

-- `none` is the NULL pointer.
unfoldable pub buddy_free : MemArea → Option ℕ → Run MemArea
buddy_free ma none = done ma
buddy_free ma (some ptr) = do
  assert (leb ma.mem ptr && ltb ptr (ma.mem + 2 ^ ma.upper))
  let block = ptr - ma.mem
  release_block ma (get_sizem ma block) block

unfoldable pub buddy_nblocks : ℕ → ℕ
buddy_nblocks sizepow2 = 2 ^ (sizepow2 - default_lower)

-- `links` is what the memory held before.
unfoldable pub buddy_init : ℕ → ℕ → (ℕ → ℕ) → MemArea
buddy_init sizepow2 membase links = record {
  lower = default_lower;
  upper = sizepow2;
  mem = membase;
  blocks =
      update (λ _. record { sizem = 0; used = false }) 0
        (record { sizem = sizepow2 % 2 ^ 7; used = false });
  freelist = update (λ _. empty) sizepow2 0;
  links = update links 0 empty;
}

-- malloc and free, for the area of the process; `user` is the result of in_user_mode. Where the heap is
-- exhausted, buddy_alloc stops in an assertion of its own.
unfoldable pub malloc : Bool → MemArea → ℕ → Run (ℕ × MemArea)
malloc user ma nbytes = assert user >> buddy_alloc ma nbytes

unfoldable pub free : Bool → MemArea → Option ℕ → Run MemArea
free user ma ptr = assert user >> buddy_free ma ptr
