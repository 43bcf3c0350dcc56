-- ===== src/Shell.antt =====
-- parse_command of source/sh.c, which source/fstool.c repeats: the tokens of a command line. The
-- array `line` is changed in place: each separator becomes a NUL, and a token is its offset.
pub mod Words
pub mod Commands
use adelaideos.Common.{
  ℕ, zero, suc, ◌+◌, Bool, ◌&&◌, ◌||◌, List, [], ◌∷◌, ◌++◌, get_or, set, length, take, drop, ltb,
  ◌==◌, if◌then◌else◌,
}
use adelaideos.Libc.{strlen}

-- `argv` holds the offsets of the tokens so far, and has `argc` elements.
pub record Tokens : Type 0 where
  pub line : List ℕ
  pub argv : List ℕ
  pub start : ℕ

abbrev pub is_separator : ℕ → Bool
is_separator c = (c == 10) || (c == 32)

-- The body of the loop at a separator, or at the end of the line.
unfoldable pub end_token : ℕ → Tokens → ℕ → Tokens
end_token max s pos = record {
  line = set s.line pos 0;
  argv = if ltb s.start pos && ltb (length s.argv + 1) max then s.argv ++ s.start ∷ [] else s.argv;
  start = pos + 1;
}

-- for (pos = 0; pos <= len; pos++), with the rounds left
unfoldable pub parse_loop : ℕ → ℕ → ℕ → Tokens → ℕ → Tokens
parse_loop zero max len s pos = s
parse_loop (suc rounds) max len s pos =
    let c = get_or s.line pos 0 in
    parse_loop rounds max len (if is_separator c || (pos == len) then end_token max s pos else s)
      (pos + 1)

unfoldable pub parse_command : List ℕ → ℕ → Tokens
parse_command line max =
    let len = strlen line in
    parse_loop (len + 1) max len (record { line = line; argv = []; start = 0 }) 0

-- The string at `&line[at]`.
unfoldable pub token : List ℕ → ℕ → List ℕ
token line at = let s = drop at line in take (strlen s) s
