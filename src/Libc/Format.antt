-- ===== src/Libc/Format.antt =====
-- print_field, vsnprintf and snprintf of source/libc.c. A format is a list of bytes with a NUL behind
-- it; the variable arguments are words on the stack, of which `ap` is the next. A position and a width are
-- words of 32 bits; the width is signed.
use adelaideos.Common.{
  ℕ, zero, suc, ◌+◌, ◌-◌, ◌*◌, ◌%◌, ◌^◌, Bool, true, false, ◌&&◌, List, [], ◌∷◌, length, set, ltb,
  leb, ◌==◌, if◌then◌else◌, u32_mod, Run, done, stop, overrun, no_fuel, ◌>>=◌,
}
use adelaideos.Libc.{Output, addchar, print_num}

-- The words from where `va_start` points, and the strings that addresses lead to.
pub record Varargs : Type 0 where
  pub word : ℕ → ℕ
  pub text : ℕ → List ℕ

abbrev pub percent : ℕ
percent = 37

-- for (s = …; *s; s++) addchar(*pos,*s);
unfoldable pub print_string : Output → List ℕ → Output
print_string o [] = o
print_string o (c ∷ cs) = let rest = print_string (addchar o c) cs in if c == 0 then o else rest

-- The case 'd'. The word is negative from 2 ^ 31 on.
unfoldable pub print_int : Output → ℕ → Output
print_int o w =
    if ltb w (2 ^ 31) then print_num o w 10 else print_num (addchar o b'-') (u32_mod - w) 10

-- With the output, the next of the arguments.
unfoldable pub print_field : Varargs → Output → ℕ → ℕ → Output × ℕ
print_field v o c ap =
    if c == b's'
    then (print_string o (v.text (v.word ap)), ap + 1)
    else if c == b'c'
    then (addchar o (v.word ap % 256), ap + 1)
    else if c == b'd'
    then (print_int o (v.word ap), ap + 1)
    else if c == b'u'
    then (print_num o (v.word ap) 10, ap + 1)
    else if c == b'p'
    then (print_num (addchar (addchar o b'0') b'x') (v.word ap) 16, ap + 1)
    else if c == b'x'
    then (print_num o (v.word ap) 16, ap + 1)
    else (addchar o percent, ap)

-- for (; ('0' <= *c) && ('9' >= *c); c++) pad = pad*10+*c-'0';
unfoldable pub read_pad : ℕ → List ℕ → ℕ × List ℕ
read_pad pad [] = (pad, [])
read_pad pad (c ∷ cs) =
    let more = read_pad ((pad * 10 + (c - 48)) % u32_mod) cs in
    if leb 48 c && leb c 57 then more else (pad, c ∷ cs)

-- for (; 0 < pad; pad--) addchar(pos,' ');
unfoldable pub add_spaces : ℕ → Output → Output
add_spaces zero o = o
add_spaces (suc pad) o = add_spaces pad (addchar o 32)

-- pad -= (pos-start_pos); and the rounds of a loop from there down to 0: none if the width is negative.
abbrev pub pad_left : ℕ → ℕ → ℕ → ℕ
pad_left pad start_pos pos =
    let w = (pad + (u32_mod - (pos + (u32_mod - start_pos)) % u32_mod)) % u32_mod in
    if ltb w (2 ^ 31) then w else 0

-- The field is printed once for its length; aligned to the right, it is printed again behind spaces.
unfoldable pub print_padded : Varargs → Output → Bool → ℕ → ℕ → ℕ → Output × ℕ
print_padded v o right_aligned pad c ap =
    let (first, next) = print_field v o c ap in
    let pad' = pad_left pad o.at first.at in
    if right_aligned
    then print_field v (add_spaces pad' (record first { at = o.at })) c ap
    else (add_spaces pad' first, next)

-- What stands behind a percent sign.
pub record Directive : Type 0 where
  pub right_aligned : Bool
  pub pad : ℕ
  pub rest : List ℕ

abbrev width_of : Bool → ℕ × List ℕ → Directive
width_of right p = record { right_aligned = right; pad = p.0; rest = p.1 }

unfoldable pub read_directive : List ℕ → Directive
read_directive [] = record { right_aligned = true; pad = 0; rest = [] }
read_directive (c ∷ cs) =
    if c == b'-' then width_of false (read_pad 0 cs) else width_of true (read_pad 0 (c ∷ cs))

-- The field behind a percent sign; with the output, the format and the argument that follow. Where
-- the format ends before the letter of the field, the NUL counts as the letter, and `c++` goes beyond.
unfoldable pub print_directive : Varargs → Output → Directive → ℕ → Run (Output × List ℕ × ℕ)
print_directive v o d ap = elim d.rest [
  | [] ↦ stop overrun
  | f ∷ more ↦
      let (o', ap') = print_padded v o d.right_aligned d.pad f ap in
      if f == 0 then stop overrun else done (o', more, ap')
]

-- The loop of vsnprintf. The fuel is the length of the format.
unfoldable pub format_loop : ℕ → Varargs → Output → List ℕ → ℕ → Run Output
format_loop fuel v o [] ap = done o
format_loop zero v o (c ∷ cs) ap = stop no_fuel
format_loop (suc fuel) v o (c ∷ cs) ap = elim (c == 0) [
  | true ↦ done o
  | false ↦ elim (c == percent) [
    | false ↦ format_loop fuel v (addchar o c) cs ap
    | true ↦ (do
      (o, more, ap) ← print_directive v o (read_directive cs) ap
      format_loop fuel v o more ap)
  ]
]

abbrev pub put_nul : Output → List ℕ
put_nul o =
    if ltb 0 o.size
    then (if ltb ((o.at + 1) % u32_mod) o.size then set o.str o.at 0 else set o.str (o.size - 1) 0)
    else o.str

-- The array and the result.
unfoldable pub vsnprintf : Varargs → List ℕ → ℕ → List ℕ → Run (List ℕ × ℕ)
vsnprintf v str size format = do
  o ← format_loop (length format) v (record { str = str; size = size; at = 0 }) format 0
  done (put_nul o, o.at)

unfoldable pub snprintf : Varargs → List ℕ → ℕ → List ℕ → Run (List ℕ × ℕ)
snprintf v str size format = vsnprintf v str size format
