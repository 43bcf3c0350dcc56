-- ===== src/Libc/Fields.antt =====
-- Each function below vsnprintf writes the text that its part of the format stands for.
use mathlib.Core.List.{append_assoc}
use native.Mathlib.Numerals.{add-one}
use adelaideos.Common.{
  ℕ, zero, suc, ◌+◌, ◌-◌, ◌*◌, ◌%◌, ◌^◌, ◌≤◌, ◌<◌, ◌∙◌, length-replicate, ◌≡◌, inl, inr, refl, Bool,
  true, false, ◌&&◌, List, [], ◌∷◌, ◌++◌, All, length, replicate, ltb, leb, ◌==◌, eq_or_ne, eq→==,
  ne→==, Bool-cases, ltb→le, arith, length-append, u32_mod, done,
}
use adelaideos.Libc.{Output, addchar, strlen}
use adelaideos.Libc.Digits.{add_all, print_num-numeral}
use adelaideos.Libc.Shown.{Shows, add_all-Shows, rewind-Shows}
use adelaideos.Libc.Format.{
  Varargs, print_string, print_int, print_field, read_pad, add_spaces, print_padded, pad_left,
  print_directive, Directive, read_directive,
}
use adelaideos.Libc.Render.{
  Conversion, string, character, decimal, unsigned, pointer, hex, literal, letter, IsDigit,
  c_string, decimal_text, field_text, next_arg, width_value, align,
}

print_string-c_string : (o : Output) (s : List ℕ) → print_string o s ≡ add_all o (c_string s)
unfolding print_string strlen add_all
print_string-c_string o [] = refl
print_string-c_string o (c ∷ s) = elim (eq_or_ne c 0) [
  | inl e ↦ rw (eq→== c 0 e) refl
  | inr n ↦ rw (ne→== c 0 n, add-one) (print_string-c_string (addchar o c) s)
]

print_int-decimal : (o : Output) (w : ℕ) → w < u32_mod → print_int o w ≡ add_all o (decimal_text w)
unfolding print_int decimal_text add_all
print_int-decimal o w h = elim (Bool-cases (ltb w (2 ^ 31))) [
  | inl t ↦ rw t (print_num-numeral o w 10 (omega arith) h)
  | inr f ↦ rw f (
      print_num-numeral (addchar o b'-') (u32_mod - w) 10 (omega arith)
        (omega (arith, ltb→le w (2 ^ 31) f)))
]

print_field-text :
    (v : Varargs) (o : Output) (l : Conversion) (ap : ℕ)
    → ((i : ℕ) → v.word i < u32_mod)
    → print_field v o (letter l) ap ≡ (add_all o (field_text v l ap), next_arg l ap)
unfolding print_field field_text add_all
print_field-text v o string ap h = rw (print_string-c_string o (v.text (v.word ap))) refl
print_field-text v o character ap h = refl
print_field-text v o decimal ap h = rw (print_int-decimal o (v.word ap) (h ap)) refl
print_field-text v o unsigned ap h =
    rw (print_num-numeral o (v.word ap) 10 (omega arith) (h ap)) refl
print_field-text v o pointer ap h =
    rw (print_num-numeral (addchar (addchar o b'0') b'x') (v.word ap) 16 (omega arith) (h ap)) refl
print_field-text v o hex ap h = rw (print_num-numeral o (v.word ap) 16 (omega arith) (h ap)) refl
print_field-text v o literal ap h = refl

add_spaces-replicate : (pad : ℕ) (o : Output) → add_spaces pad o ≡ add_all o (replicate pad 32)
unfolding add_spaces add_all
add_spaces-replicate zero o = refl
add_spaces-replicate (suc pad) o = add_spaces-replicate pad (addchar o 32)

width_value-le : (pad : ℕ) (digits : List ℕ) → pad ≤ width_value pad digits
width_value-le pad [] = omega arith
width_value-le pad (d ∷ ds) = omega (arith, width_value-le (pad * 10 + (d - 48)) ds)

read_pad-width_value :
    (pad f : ℕ) (digits rest : List ℕ)
    → All IsDigit digits
    → width_value pad digits < 2 ^ 31
    → (leb 48 f && leb f 57) ≡ false
    → read_pad pad (digits ++ f ∷ rest) ≡ (width_value pad digits, f ∷ rest)
unfolding read_pad
read_pad-width_value pad f [] rest h fits n = rw n refl
read_pad-width_value pad f (d ∷ ds) rest h fits n =
    let t : (leb 48 d && leb d 57) ≡ true = ground arith in
    let e : (pad * 10 + (d - 48)) % u32_mod ≡ pad * 10 + (d - 48) =
      omega (arith, width_value-le (pad * 10 + (d - 48)) ds, fits) in
    rw (t, e) (read_pad-width_value (pad * 10 + (d - 48)) f ds rest h.1 fits n)

pad_left-difference :
    (pad start pos : ℕ)
    → start ≤ pos
    → pos < 2 ^ 31
    → pad < 2 ^ 31
    → pad_left pad start pos ≡ pad - (pos - start)
pad_left-difference pad start pos le small fits =
    let length : (pos + (u32_mod - start)) % u32_mod ≡ pos - start = omega arith in
    rw length (ground arith)

letter-no_digit : (l : Conversion) → (leb 48 (letter l) && leb (letter l) 57) ≡ false
letter-no_digit string = refl
letter-no_digit character = refl
letter-no_digit decimal = refl
letter-no_digit unsigned = refl
letter-no_digit pointer = refl
letter-no_digit hex = refl
letter-no_digit literal = refl

letter-ne_dash : (l : Conversion) → (letter l == b'-') ≡ false
letter-ne_dash string = refl
letter-ne_dash character = refl
letter-ne_dash decimal = refl
letter-ne_dash unsigned = refl
letter-ne_dash pointer = refl
letter-ne_dash hex = refl
letter-ne_dash literal = refl

letter-ne_nul : (l : Conversion) → (letter l == 0) ≡ false
letter-ne_nul string = refl
letter-ne_nul character = refl
letter-ne_nul decimal = refl
letter-ne_nul unsigned = refl
letter-ne_nul pointer = refl
letter-ne_nul hex = refl
letter-ne_nul literal = refl

length-align :
    (right : Bool) (pad : ℕ) (t : List ℕ) → length (align right pad t) ≡ length t + (pad - length t)
unfolding align
length-align true pad t = omega (
  arith,
  length-append {0} (replicate (pad - length t) 32) t,
  length-replicate {A = ℕ} (pad - length t) 32,
)
length-align false pad t = omega (
  arith,
  length-append {0} t (replicate (pad - length t) 32),
  length-replicate {A = ℕ} (pad - length t) 32,
)

pub print_padded-align :
    (n : ℕ) (v : Varargs) (o : Output) (text : List ℕ) (right : Bool) (pad ap : ℕ) (l : Conversion)
    → ((i : ℕ) → v.word i < u32_mod)
    → pad < 2 ^ 31
    → length text + length (align right pad (field_text v l ap)) < 2 ^ 31
    → Shows n o text
    → Shows n
        (print_padded v o right pad (letter l) ap).0
        (text ++ align right pad (field_text v l ap))
      × ((print_padded v o right pad (letter l) ap).1 ≡ next_arg l ap)
unfolding print_padded align
print_padded-align n v o text true pad ap l words fits small h =
    let t = field_text v l ap in
    let all : length text + (length t + (pad - length t)) < 2 ^ 31 =
      rw (length-align true pad t) at small in
    let s1 = add_all-Shows n o text t (omega (arith, all)) h in
    let longer = length-append {0} text t in
    let e : pad_left pad o.at (add_all o t).at ≡ pad - length t =
      pad_left-difference pad o.at (add_all o t).at (omega (arith, s1.at_end, h.at_end, longer))
        (omega (arith, s1.at_end, longer, all)) fits
      ∙ omega (arith, s1.at_end, h.at_end, longer) in
    let spaces = replicate (pad - length t) 32 in
    let count = length-replicate {A = ℕ} (pad - length t) 32 in
    let back : Output = record (add_all o t) { at = o.at } in
    let s2 : Shows n back text = rewind-Shows n o.at (add_all o t) text t h.at_end s1 in
    let s3 = add_all-Shows n back text spaces (omega (arith, count, all)) s2 in
    let s4 =
      add_all-Shows n (add_all back spaces) (text ++ spaces) t
        (omega (arith, count, all, length-append {0} text spaces)) s3 in
    rw (print_field-text v o l ap words, e, add_spaces-replicate (pad - length t) back)
      (rw (print_field-text v (add_all back spaces) l ap words)
        (rw (append_assoc text spaces t) at s4, refl))
print_padded-align n v o text false pad ap l words fits small h =
    let t = field_text v l ap in
    let all : length text + (length t + (pad - length t)) < 2 ^ 31 =
      rw (length-align false pad t) at small in
    let s1 = add_all-Shows n o text t (omega (arith, all)) h in
    let longer = length-append {0} text t in
    let e : pad_left pad o.at (add_all o t).at ≡ pad - length t =
      pad_left-difference pad o.at (add_all o t).at (omega (arith, s1.at_end, h.at_end, longer))
        (omega (arith, s1.at_end, longer, all)) fits
      ∙ omega (arith, s1.at_end, h.at_end, longer) in
    let spaces = replicate (pad - length t) 32 in
    let count = length-replicate {A = ℕ} (pad - length t) 32 in
    let s2 =
      add_all-Shows n (add_all o t) (text ++ t) spaces (omega (arith, count, all, longer)) s1 in
    rw (print_field-text v o l ap words, e, add_spaces-replicate (pad - length t) (add_all o t))
      (rw (append_assoc text t spaces) at s2, refl)

abbrev pub directive : Bool → List ℕ → Conversion → List ℕ → Directive
directive right digits l rest = record {
  right_aligned = right;
  pad = width_value 0 digits;
  rest = letter l ∷ rest;
}

pub read_directive-left :
    (digits : List ℕ) (l : Conversion) (rest : List ℕ)
    → All IsDigit digits
    → width_value 0 digits < 2 ^ 31
    → read_directive (b'-' ∷ (digits ++ letter l ∷ rest)) ≡ directive false digits l rest
unfolding read_directive
read_directive-left digits l rest h fits =
    rw (read_pad-width_value 0 (letter l) digits rest h fits (letter-no_digit l)) refl

pub read_directive-right :
    (digits : List ℕ) (l : Conversion) (rest : List ℕ)
    → All IsDigit digits
    → width_value 0 digits < 2 ^ 31
    → read_directive (digits ++ letter l ∷ rest) ≡ directive true digits l rest
unfolding read_directive
read_directive-right [] l rest h fits =
    rw (letter-ne_dash l, read_pad-width_value 0 (letter l) [] rest tt fits (letter-no_digit l))
      refl
read_directive-right (d ∷ ds) l rest h fits =
    let n : (d == b'-') ≡ false = ground arith in
    rw (n, read_pad-width_value 0 (letter l) (d ∷ ds) rest h fits (letter-no_digit l)) refl

pub print_directive-field :
    (v : Varargs) (o : Output) (ap : ℕ) (right : Bool) (digits : List ℕ) (l : Conversion)
    (rest : List ℕ)
    → let r = print_padded v o right (width_value 0 digits) (letter l) ap in
      print_directive v o (directive right digits l rest) ap ≡ done (r.0, rest, r.1)
unfolding print_directive
print_directive-field v o ap right digits l rest = rw (letter-ne_nul l) refl
