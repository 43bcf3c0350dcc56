-- ===== src/Segmentation.antt =====
-- source/segmentation.c: the entries of the global descriptor table and the task state segment.
pub mod Gates
use adelaideos.Common.{ℕ, ◌+◌, ◌-◌, ◌*◌, ◌/◌, ◌%◌, ◌^◌, ◌==◌, if◌then◌else◌, update, u32_mod}

-- The bit fields of `gdt_entry`; an assignment to a field keeps as many low bits as it has.
pub record GdtEntry : Type 0 where
  pub limit_low : ℕ
  pub base_low : ℕ
  pub base_middle : ℕ
  pub seg_type : ℕ
  pub desc_type : ℕ
  pub dpl : ℕ
  pub present : ℕ
  pub limit_high : ℕ
  pub avl : ℕ
  pub op64 : ℕ
  pub opsize : ℕ
  pub granularity : ℕ
  pub base_high : ℕ

abbrev pub Gdt : Type 0
Gdt = ℕ → GdtEntry

unfoldable pub gdt_set_gate : Gdt → ℕ → ℕ → ℕ → ℕ → ℕ → ℕ → Gdt
gdt_set_gate gdt num base limit dpl desc_type seg_type =
    let entry : GdtEntry = record {
      limit_low = limit % 2 ^ 16;
      base_low = base % 2 ^ 16;
      base_middle = base / 2 ^ 16 % 2 ^ 8;
      seg_type = seg_type % 2 ^ 4;
      desc_type = desc_type % 2;
      dpl = dpl % 2 ^ 2;
      present = 1;
      limit_high = limit / 2 ^ 16 % 2 ^ 4;
      avl = 0;
      op64 = 0;
      opsize = 1;
      granularity = 1;
      base_high = base / 2 ^ 24 % 2 ^ 8;
    } in
    update gdt num
      (if num == 0 then record entry { present = 0; granularity = 0; opsize = 0 } else entry)

-- The fields of the task state segment that are set; the loop before sets all others to 0.
pub record Tss : Type 0 where
  pub ss0 : ℕ
  pub esp0 : ℕ
  pub cs : ℕ
  pub ss : ℕ
  pub ds : ℕ
  pub es : ℕ
  pub fs : ℕ
  pub gs : ℕ

pub record Segments : Type 0 where
  pub gdt : Gdt
  pub gdt_limit : ℕ
  pub gdt_base : ℕ
  pub tss : Tss

-- `gdt_at`, `tss_at` and `stack_at` are the addresses of `gdt`, `tss` and `ih_stack`. An entry of the
-- table has 8 bytes, and `tss` has 104. Segments: 0x08 kernel code, 0x10 kernel data; `|RING_3` adds 3.
unfoldable pub setup_segmentation : Gdt → ℕ → ℕ → ℕ → Segments
setup_segmentation gdt gdt_at tss_at stack_at =
    let all : ℕ = 0xFFFFFFFF in
    let gdt = gdt_set_gate gdt 0 0 0 0 0 0 in
    let gdt = gdt_set_gate gdt 1 0 all 0 1 10 in
    let gdt = gdt_set_gate gdt 2 0 all 0 1 2 in
    let gdt = gdt_set_gate gdt 3 0 all 3 1 10 in
    let gdt = gdt_set_gate gdt 4 0 all 3 1 2 in
    let gdt = gdt_set_gate gdt 5 tss_at ((tss_at + 104 - 1) % u32_mod) 3 0 9 in
    record {
      gdt = update gdt 5 (record (gdt 5) { granularity = 0; opsize = 0 });
      gdt_limit = 6 * 8 - 1;
      gdt_base = gdt_at;
      tss = record {
        ss0 = 0x10;
        esp0 = stack_at;
        cs = 0x0b;
        ss = 0x13;
        ds = 0x13;
        es = 0x13;
        fs = 0x13;
        gs = 0x13;
      };
    }
