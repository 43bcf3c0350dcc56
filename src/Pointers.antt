-- ===== src/Pointers.antt =====
-- valid_pointer and valid_string of source/syscall.c: the checks on what a process passes to the
-- kernel. An address is an unsigned int.
pub mod Bounds
use adelaideos.Common.{
  ℕ, zero, suc, ◌+◌, ◌%◌, Bool, true, false, ◌&&◌, Option, none, some, List, [], ◌∷◌, ltb, leb,
  ◌==◌, if◌then◌else◌, u32_mod, Run, done, stop, no_fuel, ◌>>=◌,
}
use adelaideos.Kernel.{Process, Kernel}
use adelaideos.Process.{current_pid}
use adelaideos.UserMemory.{translate, load_byte}

abbrev inside : ℕ → ℕ → ℕ → ℕ → Bool
inside start end from upto = leb from start && leb end upto

unfoldable pub valid_pointer : Process → ℕ → ℕ → Bool
valid_pointer p start size =
    let end = (start + size) % u32_mod in
    if size == 0
    then true
    else if ltb end start
    then false
    else if inside start end p.stack_start p.stack_end
    then true
    else if inside start end p.data_start p.data_end
    then true
    else inside start end p.text_start p.text_end

-- The byte at a logical address of the current process.
abbrev user_byte : Kernel → ℕ → Run ℕ
user_byte k a = do
  i ← current_pid k
  phys ← translate k.pages (k.processes i).pdir a
  done (load_byte k.pages phys)

-- The loop of `valid_string` from `len` on; the result holds the bytes that it has passed.
-- `none` is the result 0.
unfoldable pub string_loop : ℕ → Kernel → Process → ℕ → ℕ → Run (Option (List ℕ))
string_loop zero k p str len = stop no_fuel
string_loop (suc fuel) k p str len = elim (valid_pointer p str (len + 1)) [
  | false ↦ done none
  | true ↦ (do
    c ← user_byte k (str + len)
    elim (c == 0) [
      | true ↦ done (some [])
      | false ↦ (do
        rest ← string_loop fuel k p str (len + 1)
        done (elim rest [ none ↦ none | some cs ↦ some (c ∷ cs) ]))
    ])
]

-- `valid_string`, with the string that it finds. A string lies in one segment, below 2 ^ 32.
unfoldable pub read_path : Kernel → ℕ → Run (Option (List ℕ))
read_path k str = do i ← current_pid k; string_loop u32_mod k (k.processes i) str 0
