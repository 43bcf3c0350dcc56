-- ===== src/Pointers/Bounds.antt =====
-- Which ranges of addresses `valid_pointer` accepts.
use adelaideos.Common.{ℕ, ◌+◌, ◌≤◌, ◌<◌, ◌≡◌, ◌≢◌, ◌⊎◌, ◌↔◌, true, arith, u32_mod}
use adelaideos.Kernel.{Process}
use adelaideos.Pointers.{valid_pointer}

-- The addresses from `from` up to `upto` lie in one of the three segments of the process.
abbrev pub InSegment : Process → ℕ → ℕ → Type 0
InSegment p from upto =
    ((p.stack_start ≤ from) × (upto ≤ p.stack_end))
    ⊎ ((p.data_start ≤ from) × (upto ≤ p.data_end))
    ⊎ ((p.text_start ≤ from) × (upto ≤ p.text_end))

-- A range of at least one byte is accepted if it does not reach the end of the address space and lies
-- in one segment of the process, and only then.
pub valid_pointer-InSegment :
    (p : Process) (start size : ℕ)
    → start < u32_mod
    → size < u32_mod
    → size ≢ 0
    → (valid_pointer p start size ≡ true)
      ↔ (start + size < u32_mod) × InSegment p start (start + size)
unfolding valid_pointer
valid_pointer-InSegment p start size h k n = ((λ t. ground arith), (λ t. ground arith))
