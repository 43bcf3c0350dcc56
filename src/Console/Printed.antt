-- ===== src/Console/Printed.antt =====
-- kprintf shows the text that its format stands for.
use adelaideos.Common.{
  ℕ, suc, ◌+◌, ◌<◌, ◌≡◌, refl, sym, ap, ◌∙◌, false, List, [], ◌∷◌, ◌++◌, All, length, take, le→ltb,
  take-all, take-append, take-take, arith, u32_mod, done,
}
use adelaideos.Screen.{Screen, write_to_screen}
use adelaideos.Screen.Bounds.{IsOnScreen, SameOutside, write_to_screen-IsOnScreen}
use adelaideos.Libc.Format.{Varargs}
use adelaideos.Libc.Render.{Piece, IsPiece, write_format, render}
use adelaideos.Libc.Printed.{vsnprintf-render}
use adelaideos.Console.{kprintf}

-- The first bytes of a list, of which more are known.
take-shorter :
    (n : ℕ) (xs ys : List ℕ) (c : ℕ)
    → n ≡ length ys
    → take (n + 1) xs ≡ ys ++ c ∷ []
    → take n xs ≡ ys
take-shorter n xs ys c e h =
    let one : n + 1 ≡ suc n = omega arith in
    sym (take-take n (suc n) xs (omega arith))
    ∙ ap (take n) (rw one at h)
    ∙ rw e (take-append ys (c ∷ []))

-- In kernel mode, for a format whose fields all have one of the letters that print_field knows and a
-- width below 2 ^ 31, and whose text is shorter than the array of 4096 bytes, kprintf succeeds: the screen is that on which
-- exactly this text has been written; the cursor stays on it, and no character and no colour behind it is changed.
pub kprintf-render :
    (buf : List ℕ) (v : Varargs) (ps : List Piece) (s : Screen)
    → ((i : ℕ) → v.word i < u32_mod)
    → All IsPiece ps
    → length buf ≡ 4096
    → length (render v ps 0) < 4096
    → IsOnScreen s
    → (s' : Screen) × (kprintf false buf v (write_format ps) s ≡ done s')
      × (s' ≡ write_to_screen (render v ps 0) s)
      × IsOnScreen s'
      × SameOutside s s'
unfolding kprintf
kprintf-render buf v ps s words ok size short on =
    let text = render v ps 0 in
    let (array, runs, _, holds) =
      vsnprintf-render v buf 4096 ps words ok size (omega arith) (omega (arith, short)) in
    let shown : take 4095 text ≡ text = take-all 4095 text (omega arith) in
    let holds' = rw shown at holds in
    let first : take (length text) array ≡ text =
      take-shorter (length text) array text 0 refl holds' in
    let (on', same) = write_to_screen-IsOnScreen text s on in
    (
      write_to_screen text s,
      rw (runs, le→ltb 4096 (length text) (omega arith), first) refl,
      refl,
      on',
      same,
    )
