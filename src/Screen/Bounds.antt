-- ===== src/Screen/Bounds.antt =====
-- The cursor stays on the screen, and no character and no colour is written outside it.
use adelaideos.Common.{ℕ, ◌*◌, ◌≤◌, ◌<◌, ◌≡◌, refl, ◌∙◌, List, [], ◌∷◌, arith}
use adelaideos.Screen.{
  width, height, Screen, put_char, wrap_line, wrap_screen, write_char, write_chars, write_to_screen,
  move_cursor,
}
use adelaideos.Screen.Scroll.{scroll-scrolled}

-- The cursor is on one of the 25 lines of 80 characters.
pub record IsOnScreen (s : Screen) : Type 0 where
  pub column : s.xpos < width
  pub line : s.ypos < height

-- The memory behind the screen is as it was.
abbrev pub SameOutside : Screen → Screen → Type 0
SameOutside s t =
    (i : ℕ) → height * width ≤ i → (t.cells i ≡ s.cells i) × (t.fg i ≡ s.fg i) × (t.bg i ≡ s.bg i)

SameOutside-trans : (s t u : Screen) → SameOutside t u → SameOutside s t → SameOutside s u
SameOutside-trans s t u h g i out =
    ((h i out).0 ∙ (g i out).0, (h i out).1 ∙ (g i out).1, (h i out).2 ∙ (g i out).2)

-- A character at a position on the screen leaves at most one column and one line to wrap.
put_char_lem :
    (c : ℕ) (s : Screen)
    → IsOnScreen s
    → ((put_char c s).xpos ≤ width)
      × ((put_char c s).ypos ≤ height)
      × ((put_char c s).xpos ≡ width → (put_char c s).ypos < height)
      × SameOutside s (put_char c s)
unfolding put_char
put_char_lem c s h = (ground arith, ground arith, ground arith, λ i out. ground arith)

wrap_line_lem :
    (s : Screen)
    → s.xpos ≤ width
    → s.ypos ≤ height
    → (s.xpos ≡ width → s.ypos < height)
    → ((wrap_line s).xpos < width) × ((wrap_line s).ypos ≤ height) × SameOutside s (wrap_line s)
unfolding wrap_line
wrap_line_lem s x y corner = (ground arith, ground arith, λ i out. ground arith)

wrap_screen_lem :
    (s : Screen)
    → s.xpos < width
    → s.ypos ≤ height
    → IsOnScreen (wrap_screen s) × SameOutside s (wrap_screen s)
unfolding wrap_screen
wrap_screen_lem s x y =
    let r = scroll-scrolled s in
    (
      record { column = ground (arith, r.3); line = ground (arith, r.4) },
      λ i out. ground (arith, r.0 i, r.1 i, r.2 i),
    )

write_char_lem :
    (c : ℕ) (s : Screen)
    → IsOnScreen s
    → IsOnScreen (write_char c s) × SameOutside s (write_char c s)
unfolding write_char
write_char_lem c s h =
    let p = put_char_lem c s h in
    let l = wrap_line_lem (put_char c s) p.0 p.1 p.2 in
    let w = wrap_screen_lem (wrap_line (put_char c s)) l.0 l.1 in
    (
      w.0,
      SameOutside-trans s (wrap_line (put_char c s)) (write_char c s) w.1
          (SameOutside-trans s (put_char c s) (wrap_line (put_char c s)) l.2 p.3),
    )

write_chars_lem :
    (cs : List ℕ) (s : Screen)
    → IsOnScreen s
    → IsOnScreen (write_chars cs s) × SameOutside s (write_chars cs s)
unfolding write_chars
write_chars_lem [] s h = (h, λ i out. (refl, refl, refl))
write_chars_lem (c ∷ cs) s h =
    let w = write_char_lem c s h in
    let r = write_chars_lem cs (write_char c s) w.0 in
    (r.0, SameOutside-trans s (write_char c s) (write_chars cs (write_char c s)) r.1 w.1)

-- Whatever is printed, newlines and tabs included, `write_to_screen` leaves the cursor on the screen
-- and writes no character and no colour behind the 25 lines of 80 characters.
pub write_to_screen-IsOnScreen :
    (text : List ℕ) (s : Screen)
    → IsOnScreen s
    → IsOnScreen (write_to_screen text s) × SameOutside s (write_to_screen text s)
unfolding write_to_screen move_cursor
write_to_screen-IsOnScreen text s h =
    let r = write_chars_lem text s h in (record { column = r.0.column; line = r.0.line }, r.1)
