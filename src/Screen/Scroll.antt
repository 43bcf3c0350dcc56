-- ===== src/Screen/Scroll.antt =====
-- What scroll does to the characters on the screen and their colours.
use adelaideos.Common.{
  ℕ, ◌+◌, ◌-◌, ◌*◌, ◌%◌, ◌≡◌, refl, ◌∙◌, ◌&&◌, arith, ltb, leb, if◌then◌else◌, for_below,
  for_below-keeps, u32_mod,
}
use adelaideos.Screen.{width, height, Screen, put, put_copy, copy_line, clear_line, scroll}

-- The cells and their colours are these, and the cursor is where it is in `s`.
pub record Shows (s t : Screen) (cells fg bg : ℕ → ℕ) : Type 0 where
  pub cell : (i : ℕ) → t.cells i ≡ cells i
  pub fore : (i : ℕ) → t.fg i ≡ fg i
  pub back : (i : ℕ) → t.bg i ≡ bg i
  pub same_x : t.xpos ≡ s.xpos
  pub same_y : t.ypos ≡ s.ypos

abbrev part : ℕ → ℕ → ℕ → (ℕ → ℕ) → (ℕ → ℕ) → ℕ → ℕ
part from upto shift new old i = if leb from i && ltb i upto then new (i + shift) else old i

-- The cells from `from` to `upto` are those that stand one line below in `s`.
abbrev Moved : Screen → Screen → ℕ → ℕ → Type 0
Moved s t from upto =
    Shows s t (part from upto width s.cells s.cells) (part from upto width s.fg s.fg)
      (part from upto width s.bg s.bg)

copy_step :
    (s t : Screen) (y x : ℕ)
    → Moved s t (y * width) (y * width + x)
    → Moved s (put_copy t (y * width + x) ((y + 1) * width + x)) (y * width) (y * width + (x + 1))
copy_step s t y x h = record {
  cell = λ i. ground (arith, h.cell i, h.cell ((y + 1) * width + x));
  fore = λ i. ground (arith, h.fore i, h.fore ((y + 1) * width + x));
  back = λ i. ground (arith, h.back i, h.back ((y + 1) * width + x));
  same_x = h.same_x;
  same_y = h.same_y;
}

copy_line_lem : (s : Screen) (y : ℕ) → Moved s (copy_line y s) (y * width) (y * width + width)
unfolding copy_line
copy_line_lem s y =
    for_below-keeps _ (λ x t. Moved s t (y * width) (y * width + x)) s
      (record {
        cell = λ i. ground arith;
        fore = λ i. ground arith;
        back = λ i. ground arith;
        same_x = refl;
        same_y = refl;
      })
      (λ x t h. copy_step s t y x h) width

copy_lines_step :
    (s t : Screen) (y : ℕ) → Moved s t 0 (y * width) → Moved s (copy_line y t) 0 ((y + 1) * width)
copy_lines_step s t y h =
    let c = copy_line_lem t y in
    record {
      cell = λ i. ground (arith, c.cell i, h.cell i, h.cell (i + width));
      fore = λ i. ground (arith, c.fore i, h.fore i, h.fore (i + width));
      back = λ i. ground (arith, c.back i, h.back i, h.back (i + width));
      same_x = c.same_x ∙ h.same_x;
      same_y = c.same_y ∙ h.same_y;
    }

copy_lines_lem :
    (s : Screen) → Moved s (for_below (height - 1) copy_line s) 0 ((height - 1) * width)
copy_lines_lem s =
    for_below-keeps copy_line (λ y t. Moved s t 0 (y * width)) s
      (record {
        cell = λ i. ground arith;
        fore = λ i. ground arith;
        back = λ i. ground arith;
        same_x = refl;
        same_y = refl;
      })
      (λ y t h. copy_lines_step s t y h) (height - 1)

-- The cells from `from` to `upto` are blank; the colours are those in `s`.
abbrev Cleared : Screen → Screen → ℕ → ℕ → Type 0
Cleared s t from upto = Shows s t (part from upto 0 (λ _. 32) s.cells) s.fg s.bg

clear_step :
    (s t : Screen) (y x : ℕ)
    → Cleared s t (y * width) (y * width + x)
    → Cleared s (put t (y * width + x) 32) (y * width) (y * width + (x + 1))
clear_step s t y x h = record {
  cell = λ i. ground (arith, h.cell i);
  fore = h.fore;
  back = h.back;
  same_x = h.same_x;
  same_y = h.same_y;
}

clear_line_lem : (s : Screen) (y : ℕ) → Cleared s (clear_line y s) (y * width) (y * width + width)
unfolding clear_line
clear_line_lem s y =
    for_below-keeps _ (λ x t. Cleared s t (y * width) (y * width + x)) s
      (record {
        cell = λ i. ground arith;
        fore = λ i. refl;
        back = λ i. refl;
        same_x = refl;
        same_y = refl;
      })
      (λ x t h. clear_step s t y x h) width

-- A scrolled screen: each line holds what the line below it held, the last line is blank, and no
-- character outside the screen is touched.
abbrev pub scrolled : (ℕ → ℕ) → ℕ → ℕ
scrolled cells i =
    if ltb i ((height - 1) * width)
    then cells (i + width)
    else if ltb i (height * width)
    then 32
    else cells i

-- The colours move with the lines; those of the last line stay.
abbrev pub raised : (ℕ → ℕ) → ℕ → ℕ
raised colours i = if ltb i ((height - 1) * width) then colours (i + width) else colours i

-- `scroll` moves every line up by one, with the colours of its characters, blanks the last line, whose
-- colours stay, touches nothing outside the 25 lines, and takes the cursor one line up.
pub scroll-scrolled :
    (s : Screen)
    → ((i : ℕ) → (scroll s).cells i ≡ scrolled s.cells i)
      × ((i : ℕ) → (scroll s).fg i ≡ raised s.fg i)
      × ((i : ℕ) → (scroll s).bg i ≡ raised s.bg i)
      × ((scroll s).xpos ≡ s.xpos)
      × ((scroll s).ypos ≡ (s.ypos + (u32_mod - 1)) % u32_mod)
unfolding scroll
scroll-scrolled s =
    let t = for_below (height - 1) copy_line s in
    let c = clear_line_lem t (height - 1) in
    let m = copy_lines_lem s in
    (
      λ i. ground (arith, c.cell i, m.cell i),
      λ i. ground (arith, c.fore i, m.fore i),
      λ i. ground (arith, c.back i, m.back i),
      c.same_x ∙ m.same_x,
      rw (c.same_y, m.same_y),
    )
