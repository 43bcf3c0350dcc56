-- ===== src/Libc/Printed.antt =====
-- vsnprintf writes just the text that the format stands for.
use mathlib.Core.List.{append-nil, append_assoc}
use adelaideos.Common.{
  ℕ, zero, suc, ◌+◌, ◌-◌, ◌^◌, ◌≤◌, ◌<◌, ◌≡◌, ◌≢◌, refl, Bool, true, false, List, [], ◌∷◌, ◌++◌,
  All, length, take, ne→==, arith, length-append, u32_mod, Run, done,
}
use adelaideos.Libc.{Output, addchar}
use adelaideos.Libc.Shown.{Shows, addchar-Shows, put_nul-Shows}
use adelaideos.Libc.Format.{
  Varargs, percent, print_padded, read_directive, format_loop, put_nul, vsnprintf,
}
use adelaideos.Libc.Render.{
  Conversion, letter, Piece, plain, field, IsPiece, write_format, field_text, next_arg, width_value,
  align, render,
}
use adelaideos.Libc.Fields.{
  directive, print_padded-align, read_directive-left, read_directive-right, print_directive-field,
}

-- The loop at a percent sign.
format_loop-field :
    (fuel : ℕ) (v : Varargs) (o : Output) (cs : List ℕ) (ap : ℕ) (right : Bool) (digits : List ℕ)
    (l : Conversion) (rest : List ℕ)
    → read_directive cs ≡ directive right digits l rest
    → let r = print_padded v o right (width_value 0 digits) (letter l) ap in
      format_loop (suc fuel) v o (percent ∷ cs) ap ≡ format_loop fuel v r.0 rest r.1
unfolding format_loop
format_loop-field fuel v o cs ap right digits l rest e =
    rw (e, print_directive-field v o ap right digits l rest) refl

-- The loop comes to its end, and the array shows the text of the pieces behind what it showed.
abbrev Prints : ℕ → Run Output → List ℕ → Type 0
Prints n r text = (o : Output) × (r ≡ done o) × Shows n o text

-- A field, and what follows it.
field-Prints :
    (n fuel : ℕ) (v : Varargs) (o : Output) (text : List ℕ) (right : Bool) (digits : List ℕ)
    (l : Conversion) (ps : List Piece) (ap : ℕ) (cs : List ℕ)
    → ((i : ℕ) → v.word i < u32_mod)
    → width_value 0 digits < 2 ^ 31
    → length text + length (render v (field right digits l ∷ ps) ap) < 2 ^ 31
    → Shows n o text
    → read_directive cs ≡ directive right digits l (write_format ps)
    → ((o' : Output) (shown : List ℕ)
        → length shown + length (render v ps (next_arg l ap)) < 2 ^ 31
        → Shows n o' shown
        → Prints n
            (format_loop fuel v o' (write_format ps) (next_arg l ap))
            (shown ++ render v ps (next_arg l ap)))
    → Prints n
        (format_loop (suc fuel) v o (percent ∷ cs) ap)
        (text ++ render v (field right digits l ∷ ps) ap)
unfolding render
field-Prints n fuel v o text right digits l ps ap cs words fits small h e rest =
    let r = print_padded v o right (width_value 0 digits) (letter l) ap in
    let field = align right (width_value 0 digits) (field_text v l ap) in
    let long = length-append {0} field (render v ps (next_arg l ap)) in
    let longer = length-append {0} text field in
    let s =
      print_padded-align n v o text right (width_value 0 digits) ap l words fits
        (omega (arith, small, long)) h in
    let (o', runs, shows) = rest r.0 (text ++ field) (omega (arith, small, long, longer)) s.0 in
    (
      o',
      rw (format_loop-field fuel v o cs ap right digits l (write_format ps) e, s.1) runs,
      rw (append_assoc text field (render v ps (next_arg l ap))) at shows,
    )

format_loop-plain :
    (fuel : ℕ) (v : Varargs) (o : Output) (c : ℕ) (cs : List ℕ) (ap : ℕ)
    → c ≢ 0
    → c ≢ percent
    → format_loop (suc fuel) v o (c ∷ cs) ap ≡ format_loop fuel v (addchar o c) cs ap
unfolding format_loop
format_loop-plain fuel v o c cs ap nul sign =
    rw (ne→== c 0 nul, format_loop) (rw (ne→== c percent sign) refl)

format_loop-render :
    (n fuel : ℕ) (v : Varargs) (o : Output) (text : List ℕ) (ps : List Piece) (ap : ℕ)
    → ((i : ℕ) → v.word i < u32_mod)
    → All IsPiece ps
    → length (write_format ps) ≤ fuel
    → length text + length (render v ps ap) < 2 ^ 31
    → Shows n o text
    → Prints n (format_loop fuel v o (write_format ps) ap) (text ++ render v ps ap)
unfolding render
format_loop-render n fuel v o text [] ap words ok f small h =
    (o, unfold format_loop in refl, rw (append-nil text) h)
format_loop-render n zero v o text (plain c ∷ ps) ap words ok f small h = absurd (omega arith)
format_loop-render n (suc fuel) v o text (plain c ∷ ps) ap words ok f small h =
    let longer' = length-append {0} text (c ∷ []) in
    let (o', runs, shows) =
      format_loop-render n fuel v (addchar o c) (text ++ c ∷ []) ps ap words ok.1 (omega arith)
        (omega (arith, small, longer')) (addchar-Shows n o text c (omega (arith, small)) h) in
    (
      o',
      rw (format_loop-plain fuel v o c (write_format ps) ap ok.0.0 ok.0.1) runs,
      rw (append_assoc text (c ∷ []) (render v ps ap)) at shows,
    )
format_loop-render n zero v o text (field true digits l ∷ ps) ap words ok f small h =
    absurd (omega arith)
format_loop-render n (suc fuel) v o text (field true digits l ∷ ps) ap words ok f small h =
    let longer = length-append {0} digits (letter l ∷ write_format ps) in
    let fits : length (write_format ps) ≤ fuel = omega (arith, longer) in
    field-Prints n fuel v o text true digits l ps ap (digits ++ letter l ∷ write_format ps) words
      ok.0.1 small h (read_directive-right digits l (write_format ps) ok.0.0 ok.0.1)
      (λ o' shown b s. format_loop-render n fuel v o' shown ps (next_arg l ap) words ok.1 fits b s)
format_loop-render n zero v o text (field false digits l ∷ ps) ap words ok f small h =
    absurd (omega arith)
format_loop-render n (suc fuel) v o text (field false digits l ∷ ps) ap words ok f small h =
    let longer = length-append {0} digits (letter l ∷ write_format ps) in
    let fits : length (write_format ps) ≤ fuel = omega (arith, longer) in
    field-Prints n fuel v o text false digits l ps ap
      (b'-' ∷ (digits ++ letter l ∷ write_format ps)) words ok.0.1 small h
      (read_directive-left digits l (write_format ps) ok.0.0 ok.0.1)
      (λ o' shown b s. format_loop-render n fuel v o' shown ps (next_arg l ap) words ok.1 fits b s)

-- For a format whose fields all have one of the letters that print_field knows and a width below 2
-- ^ 31, where the text that it stands for has less than 2 ^ 31 bytes, and an array of at least one
-- byte, vsnprintf succeeds: it returns the length of the text that the format stands for, and the
-- array, whose size is as before, begins with that text, as far as it fits before the last byte,
-- and a NUL behind it.
pub vsnprintf-render :
    (v : Varargs) (str : List ℕ) (size : ℕ) (ps : List Piece)
    → ((i : ℕ) → v.word i < u32_mod)
    → All IsPiece ps
    → length str ≡ size
    → 0 < size
    → length (render v ps 0) < 2 ^ 31
    → let shown = take (size - 1) (render v ps 0) in
      (array : List ℕ) × (vsnprintf v str size (write_format ps)
        ≡ done (array, length (render v ps 0)))
      × (length array ≡ size)
      × (take (length shown + 1) array ≡ shown ++ 0 ∷ [])
unfolding vsnprintf
vsnprintf-render v str size ps words ok e pos small =
    let start : Output = record { str = str; size = size; at = 0 } in
    let empty : Shows size start [] = record {
      at_end = refl;
      room = refl;
      whole = e;
      held = λ i lt fits. absurd (omega arith);
    } in
    let format = write_format ps in
    let (o, runs, shows) =
      format_loop-render size (length format) v start [] ps 0 words ok (omega arith)
        (omega (arith, small)) empty in
    let f = put_nul-Shows size o (render v ps 0) pos (omega (arith, small)) shows in
    (put_nul o, rw (runs, shows.at_end) refl, f.0, f.1)
