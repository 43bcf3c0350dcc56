-- ===== src/Segmentation/Gates.antt =====
-- What the processor reads back from an entry of the descriptor table.
use adelaideos.Common.{ℕ, ◌+◌, ◌*◌, ◌%◌, ◌^◌, ◌<◌, ◌≡◌, ◌≢◌, arith, refl, ne→==, eq→==, update-ne}
use adelaideos.Segmentation.{GdtEntry, Gdt, gdt_set_gate}

-- The base address and the limit of a segment, put together as the processor does.
abbrev pub base_of : GdtEntry → ℕ
base_of e = e.base_low + e.base_middle * 2 ^ 16 + e.base_high * 2 ^ 24

abbrev pub limit_of : GdtEntry → ℕ
limit_of e = e.limit_low + e.limit_high * 2 ^ 16

-- For an entry other than the first and a base below 2 ^ 32, the processor finds in the entry the
-- base that was set and the low 20 bits of the limit, and the entry is present; the other entries
-- are what they were.
pub gdt_set_gate-decoded :
    (gdt : Gdt) (num base limit dpl desc_type seg_type : ℕ)
    → num ≢ 0
    → base < 2 ^ 32
    → (base_of (gdt_set_gate gdt num base limit dpl desc_type seg_type num) ≡ base)
      × (limit_of (gdt_set_gate gdt num base limit dpl desc_type seg_type num) ≡ limit % 2 ^ 20)
      × (GdtEntry.present (gdt_set_gate gdt num base limit dpl desc_type seg_type num) ≡ 1)
      × ((other : ℕ)
          → num ≢ other
          → gdt_set_gate gdt num base limit dpl desc_type seg_type other ≡ gdt other)
unfolding gdt_set_gate
gdt_set_gate-decoded gdt num base limit dpl desc_type seg_type used small =
    rw (ne→== num 0 used, eq→== num num refl)
      (omega arith, omega arith, refl, λ other n. update-ne gdt num other _ n)
