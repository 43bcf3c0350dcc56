-- ===== src/Libc/Render.antt =====
-- What a format stands for, described without the array.
use adelaideos.Common.{
  ℕ, ◌+◌, ◌-◌, ◌*◌, ◌%◌, ◌^◌, ◌≤◌, ◌<◌, ◌≢◌, Bool, true, false, List, [], ◌∷◌, ◌++◌, All, length,
  take, replicate, ltb, if◌then◌else◌, u32_mod,
}
use adelaideos.Libc.{strlen}
use adelaideos.Libc.Digits.{numeral}
use adelaideos.Libc.Format.{Varargs, percent}

-- The letters behind a percent sign, and the sign itself.
pub data Conversion : Type 0 where
  string character decimal unsigned pointer hex literal : Conversion

abbrev pub letter : Conversion → ℕ
letter string = b's'
letter character = b'c'
letter decimal = b'd'
letter unsigned = b'u'
letter pointer = b'p'
letter hex = b'x'
letter literal = percent

-- The number that digits stand for, behind a number.
abbrev pub width_value : ℕ → List ℕ → ℕ
width_value pad [] = pad
width_value pad (d ∷ ds) = width_value (pad * 10 + (d - 48)) ds

-- A format in pieces. The width of a field is a list of digits, for a number that an `int` holds.
pub data Piece : Type 0 where
  plain : ℕ → Piece
  field : Bool → List ℕ → Conversion → Piece

abbrev pub IsDigit : ℕ → Type 0
IsDigit d = (48 ≤ d) × (d ≤ 57)

abbrev pub IsPiece : Piece → Type 0
IsPiece (plain c) = (c ≢ 0) × (c ≢ percent)
IsPiece (field right digits letter) = All IsDigit digits × (width_value 0 digits < 2 ^ 31)

abbrev pub write_format : List Piece → List ℕ
write_format [] = []
write_format (plain c ∷ ps) = c ∷ write_format ps
write_format (field true digits l ∷ ps) = percent ∷ (digits ++ letter l ∷ write_format ps)
write_format (field false digits l ∷ ps) = percent ∷ b'-' ∷ (digits ++ letter l ∷ write_format ps)

-- The string up to its NUL.
abbrev pub c_string : List ℕ → List ℕ
c_string s = take (strlen s) s

unfoldable pub decimal_text : ℕ → List ℕ
decimal_text w = if ltb w (2 ^ 31) then numeral w 10 else b'-' ∷ numeral (u32_mod - w) 10

unfoldable pub field_text : Varargs → Conversion → ℕ → List ℕ
field_text v string ap = c_string (v.text (v.word ap))
field_text v character ap = v.word ap % 256 ∷ []
field_text v decimal ap = decimal_text (v.word ap)
field_text v unsigned ap = numeral (v.word ap) 10
field_text v pointer ap = b'0' ∷ b'x' ∷ numeral (v.word ap) 16
field_text v hex ap = numeral (v.word ap) 16
field_text v literal ap = percent ∷ []

abbrev pub next_arg : Conversion → ℕ → ℕ
next_arg literal ap = ap
next_arg _ ap = ap + 1

unfoldable pub align : Bool → ℕ → List ℕ → List ℕ
align true pad text = replicate (pad - length text) 32 ++ text
align false pad text = text ++ replicate (pad - length text) 32

unfoldable pub render : Varargs → List Piece → ℕ → List ℕ
render v [] ap = []
render v (plain c ∷ ps) ap = c ∷ render v ps ap
render v (field right digits l ∷ ps) ap =
    align right (width_value 0 digits) (field_text v l ap) ++ render v ps (next_arg l ap)
