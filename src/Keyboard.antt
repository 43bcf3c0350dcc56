-- ===== src/Keyboard.antt =====
-- keyboard_handler of source/main.c, up to the switch to another process.
use adelaideos.Common.{
  ℕ, ◌%◌, Bool, true, false, Option, none, some, [], ◌∷◌, ◌==◌, if◌then◌else◌, test_bit, Run, done,
  ◌>>=◌,
}
use adelaideos.Kernel.{Kernel}
use adelaideos.Pipe.{write_to_pipe}

-- `shift_pressed`, `input_pipe` (`none` is NULL), and the two maps of source/start.s.
pub record Keyboard : Type 0 where
  pub shift_pressed : Bool
  pub input_pipe : Option ℕ
  pub kbdmap : ℕ → ℕ
  pub kbdmap_shift : ℕ → ℕ

abbrev pub key_shift : ℕ
key_shift = 42

unfoldable pub send_char : Keyboard → Kernel → ℕ → Run Kernel
send_char kb k c = elim kb.input_pipe [ none ↦ done k | some b ↦ write_to_pipe k b (c ∷ []) ]

unfoldable pub key_press : Keyboard → Kernel → ℕ → Run (Keyboard × Kernel)
key_press kb k key = if key_shift == key then done (record kb { shift_pressed = true }, k) else (do
  k ← send_char kb k (if kb.shift_pressed then kb.kbdmap_shift key else kb.kbdmap key)
  done (kb, k))

unfoldable pub keyboard_handler : Keyboard → Kernel → ℕ → Run (Keyboard × Kernel)
keyboard_handler kb k scancode =
    let key = scancode % 128 in
    if test_bit 7 scancode
    then done (if key_shift == key then record kb { shift_pressed = false } else kb, k)
    else key_press kb k key
