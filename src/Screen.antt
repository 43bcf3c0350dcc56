-- ===== src/Screen.antt =====
-- The screen: scroll and write_to_screen of source/main.c, addstr and move_cursor of
-- source/interrupts.c. `cells i`, `fg i` and `bg i` are `screen[i].c`, `screen[i].fg` and `screen[i].bg`.
-- `ports` are the writes to output ports, the last one first.
pub mod Scroll
pub mod Bounds
use adelaideos.Common.{
  ℕ, ◌+◌, ◌-◌, ◌*◌, ◌/◌, ◌%◌, ◌^◌, List, [], ◌∷◌, leb, ◌==◌, if◌then◌else◌, update, u32_mod,
  for_below,
}

abbrev pub width : ℕ
width = 80

abbrev pub height : ℕ
height = 25

pub record Screen : Type 0 where
  pub cells : ℕ → ℕ
  pub fg : ℕ → ℕ
  pub bg : ℕ → ℕ
  pub xpos : ℕ
  pub ypos : ℕ
  pub ports : List (ℕ × ℕ)

abbrev pub put : Screen → ℕ → ℕ → Screen
put s i c = record s { cells = update s.cells i c }

-- `outb` sends the low byte.
abbrev pub outb : ℕ → ℕ → Screen → Screen
outb port v s = record s { ports = (port, v % 256) ∷ s.ports }

unfoldable pub move_cursor : ℕ → ℕ → Screen → Screen
move_cursor x y s =
    let val = y * 80 + x in
    outb 0x3D5 val (outb 0x3D4 15 (outb 0x3D5 (val / 2 ^ 8) (outb 0x3D4 14 s)))

-- screen[i] = screen[j]
abbrev pub put_copy : Screen → ℕ → ℕ → Screen
put_copy s i j = record s {
  cells = update s.cells i (s.cells j);
  fg = update s.fg i (s.fg j);
  bg = update s.bg i (s.bg j);
}

unfoldable pub copy_line : ℕ → Screen → Screen
copy_line y s = for_below width (λ x t. put_copy t (y * width + x) ((y + 1) * width + x)) s

unfoldable pub clear_line : ℕ → Screen → Screen
clear_line y s = for_below width (λ x t. put t (y * width + x) 32) s

-- `ypos` is unsigned. The last line is `y = 24`, where the first loop leaves `y`.
unfoldable pub scroll : Screen → Screen
scroll s =
    let t = clear_line (height - 1) (for_below (height - 1) copy_line s) in
    record t { ypos = (t.ypos + (u32_mod - 1)) % u32_mod }

-- The character, before the tests for the end of the line and of the screen.
unfoldable pub put_char : ℕ → Screen → Screen
put_char c s =
    if c == 10
    then record s { xpos = 0; ypos = (s.ypos + 1) % u32_mod }
    else if c == 9
    then record s { xpos = (s.xpos + (8 - s.xpos % 8)) % u32_mod }
    else record (put s (s.ypos * width + s.xpos) c) { xpos = (s.xpos + 1) % u32_mod }

unfoldable pub wrap_line : Screen → Screen
wrap_line s = if leb width s.xpos then record s { xpos = 0; ypos = (s.ypos + 1) % u32_mod } else s

unfoldable pub wrap_screen : Screen → Screen
wrap_screen s = if leb height s.ypos then scroll s else s

unfoldable pub write_char : ℕ → Screen → Screen
write_char c s = wrap_screen (wrap_line (put_char c s))

unfoldable pub write_chars : List ℕ → Screen → Screen
write_chars [] s = s
write_chars (c ∷ cs) s = write_chars cs (write_char c s)

unfoldable pub write_to_screen : List ℕ → Screen → Screen
write_to_screen text s = let t = write_chars text s in move_cursor t.xpos t.ypos t

-- `x` is the position that the string starts at; the result holds the one behind it.
unfoldable pub addstr : ℕ → List ℕ → Screen → ℕ × Screen
addstr x [] s = (x, s)
addstr x (c ∷ cs) s =
    addstr (x + 1) cs
      (record s { cells = update s.cells x c; fg = update s.fg x 15; bg = update s.bg x 0 })
