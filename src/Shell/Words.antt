-- ===== src/Shell/Words.antt =====
-- parse_command of source/sh.c against the words of a line.
use adelaideos.Common.{
  ℕ, zero, suc, ◌+◌, ◌-◌, ◌≤◌, ◌≡◌, subst, Bool, refl, sym, ap, ◌∙◌, inl, inr, true, false, ◌||◌,
  List, [], ◌∷◌, ◌++◌, All, All-append, map, length, take, set, get_or, ltb, ◌==◌, ltb→lt, lt→ltb,
  ltb→le, le→ltb, Bool-cases, if◌then◌else◌, length-append, drop-append_all, take-append,
  get_or-append_right, ne→==, eq→==, arith,
}
use mathlib.Core.List.{append_assoc, append-nil, map-append}
use adelaideos.Libc.{strlen}
use adelaideos.Libc.Compare.{IsChar}
use adelaideos.Shell.{Tokens, is_separator, end_token, parse_loop, parse_command, token}

-- A word that ends, before the words behind it.
abbrev pub end_word : List ℕ → List (List ℕ) → List (List ℕ)
end_word [] ws = ws
end_word (c ∷ w) ws = (c ∷ w) ∷ ws

-- The words of a line, whose first word begins with what has been read of it.
abbrev pub words_from : List ℕ → List ℕ → List (List ℕ)
words_from w [] = end_word w []
words_from w (c ∷ cs) =
    let next = words_from [] cs in
    let more = words_from (w ++ c ∷ []) cs in if is_separator c then end_word w next else more

-- The longest parts of a line without spaces and newlines that are not empty, in their order.
unfoldable pub words : List ℕ → List (List ℕ)
words line = words_from [] line

strlen-append : (w rest : List ℕ) → All IsChar w → strlen (w ++ rest) ≡ length w + strlen rest
unfolding strlen
strlen-append [] rest h = omega arith
strlen-append (c ∷ w) rest h = rw (ne→== c 0 h.0.0) (omega (arith, strlen-append w rest h.1))

token-word :
    (f w rest : List ℕ) → All IsChar w → strlen rest ≡ 0 → token (f ++ (w ++ rest)) (length f) ≡ w
unfolding token
token-word f w rest h e =
    let l : strlen (w ++ rest) ≡ length w = strlen-append w rest h ∙ omega (arith, e) in
    rw (drop-append_all f (w ++ rest), l) (take-append w rest)

take-push {ℓ} :
    {A : Type ℓ} (n : ℕ) (xs : List A) (x : A)
    → take n (xs ++ x ∷ [])
      ≡ (if ltb (length (take n xs)) n then take n xs ++ x ∷ [] else take n xs)
take-push zero xs x = refl
take-push (suc zero) [] x = refl
take-push (suc (suc n)) [] x = rw (lt→ltb 0 (suc (suc n)) (omega arith)) refl
take-push (suc n) (y ∷ xs) x = elim (Bool-cases (ltb (length (take n xs)) n)) [
  | inl e ↦
      rw
        (lt→ltb (suc (length (take n xs))) (suc n) (omega (arith, ltb→lt (length (take n xs)) n e)))
        (ap (λ r. y ∷ r) (take-push n xs x ∙ rw e refl))
  | inr e ↦
      rw
        (le→ltb (suc (length (take n xs))) (suc n) (omega (arith, ltb→le (length (take n xs)) n e)))
        (ap (λ r. y ∷ r) (take-push n xs x ∙ rw e refl))
]

take-nil : (n : ℕ) → [] ≡ take {A = List ℕ} n []
take-nil zero = refl
take-nil (suc n) = refl

or_true : (b : Bool) → (b || true) ≡ true
or_true true = refl
or_true false = refl

-- The array holds `f`, in which the words `ws` are found, then `w`, which the loop has passed, and what
-- is left.
record Scanned (max : ℕ) (s : Tokens) (f w back : List ℕ) (ws : List (List ℕ)) : Type 0 where
  line : s.line ≡ f ++ (w ++ back)
  start : s.start ≡ length f
  found : (rest : List ℕ) → map (token (f ++ rest)) s.argv ≡ take (max - 1) ws

length-map {ℓ κ} :
    {A : Type ℓ} {B : Type κ} (f : A → B) (xs : List A) → length (map f xs) ≡ length xs
length-map f [] = refl
length-map f (x ∷ xs) = ap suc (length-map f xs)

-- The texts of the tokens when a word ends before `rest`.
end_token-found :
    (max : ℕ) (s : Tokens) (f w back rest : List ℕ) (ws : List (List ℕ))
    → All IsChar w
    → strlen rest ≡ 0
    → Scanned max s f w back ws
    → map (token (f ++ (w ++ rest))) (end_token max s (length f + length w)).argv
      ≡ take (max - 1) (ws ++ end_word w [])
unfolding end_token
end_token-found max s f [] back rest ws hw e h =
    rw (h.start, le→ltb (length f) (length f + 0) (omega arith), append-nil ws) (h.found rest)
end_token-found max s f (c ∷ w) back rest ws hw e h =
    let lt = lt→ltb (length f) (length f + suc (length w)) (omega arith) in
    let count = sym (length-map (token (f ++ [])) s.argv) ∙ ap length (h.found []) in
    elim (Bool-cases (ltb (length s.argv + 1) max)) [
      | inl more ↦
          let room =
            lt→ltb (length (take (max - 1) ws)) (max - 1)
              (omega (arith, count, ltb→lt (length s.argv + 1) max more)) in
          rw
            (
              h.start,
              lt,
              take-push (max - 1) ws (c ∷ w),
              more,
              room,
              map-append (token (f ++ (c ∷ w ++ rest))) s.argv (length f ∷ []),
              h.found (c ∷ w ++ rest),
              token-word f (c ∷ w) rest hw e,
            )
            refl
      | inr full ↦
          let full' =
            le→ltb (length (take (max - 1) ws)) (max - 1)
              (omega (arith, count, ltb→le (length s.argv + 1) max full)) in
          rw (h.start, lt, take-push (max - 1) ws (c ∷ w), full, full') (h.found (c ∷ w ++ rest))
    ]

set-append :
    (f w back : List ℕ) (c v : ℕ)
    → set (f ++ (w ++ c ∷ back)) (length f + length w) v ≡ f ++ (w ++ v ∷ back)
set-append [] [] back c v = refl
set-append [] (x ∷ w) back c v =
    let n : 0 + suc (length w) ≡ suc (0 + length w) = omega arith in
    rw n (ap (λ r. x ∷ r) (set-append [] w back c v))
set-append (x ∷ f) w back c v =
    let n : suc (length f) + length w ≡ suc (length f + length w) = omega arith in
    rw n (ap (λ r. x ∷ r) (set-append f w back c v))

-- The loop at a separator.
end_token-Scanned :
    (max : ℕ) (s : Tokens) (f w back : List ℕ) (c : ℕ) (ws : List (List ℕ))
    → All IsChar w
    → Scanned max s f w (c ∷ back) ws
    → Scanned max
        (end_token max s (length f + length w))
        (f ++ (w ++ 0 ∷ []))
        []
        back
        (ws ++ end_word w [])
unfolding end_token strlen
end_token-Scanned max s f w back c ws hw h =
    let split = λ (rest : List ℕ).
      append_assoc f (w ++ 0 ∷ []) rest ∙ ap (λ r. f ++ r) (append_assoc w (0 ∷ []) rest) in
    record {
      line = rw h.line (set-append f w back c 0 ∙ sym (split back));
      start = omega (arith, length-append f (w ++ 0 ∷ []), length-append w (0 ∷ []));
      found =
          λ rest. rw (split rest) (end_token-found max s f w (c ∷ back) (0 ∷ rest) ws hw refl h);
    }

set-past : (xs : List ℕ) (i v : ℕ) → length xs ≤ i → set xs i v ≡ xs
set-past [] i v h = refl
set-past (x ∷ xs) zero v h = absurd (omega arith)
set-past (x ∷ xs) (suc i) v h = ap (λ r. x ∷ r) (set-past xs i v (omega arith))

-- A round of the loop, by what its test finds.
parse_loop-round :
    (rounds max len : ℕ) (s : Tokens) (pos : ℕ) (c : ℕ) (b : Bool)
    → get_or s.line pos 0 ≡ c
    → (is_separator c || (pos == len)) ≡ b
    → parse_loop (suc rounds) max len s pos
      ≡ parse_loop rounds max len (if b then end_token max s pos else s) (pos + 1)
unfolding parse_loop
parse_loop-round rounds max len s pos c b g t = rw (g, t) refl

end_word-append : (w : List ℕ) (ws : List (List ℕ)) → end_word w ws ≡ end_word w [] ++ ws
end_word-append [] ws = refl
end_word-append (c ∷ w) ws = refl

get_or-middle :
    (f w back : List ℕ) (c : ℕ) → get_or (f ++ (w ++ c ∷ back)) (length f + length w) 0 ≡ c
get_or-middle f w back c =
    get_or-append_right f (w ++ c ∷ back) (length w) (length f + length w) 0 refl
    ∙ get_or-append_right w (c ∷ back) 0 (length w) 0 (omega arith)

-- The last round, behind the last character.
parse_loop-last :
    (max len pos : ℕ) (s : Tokens) (f w : List ℕ) (ws : List (List ℕ))
    → All IsChar w
    → pos ≡ length f + length w
    → Scanned max s f w [] ws
    → let t = parse_loop 0 max len (end_token max s pos) (pos + 1) in
      map (token t.line) t.argv ≡ take (max - 1) (ws ++ end_word w [])
unfolding parse_loop end_token strlen
parse_loop-last max len pos s f w ws hw p h =
    let size : length (f ++ (w ++ [])) ≤ pos =
      omega (arith, p, length-append f (w ++ []), length-append w []) in
    let line : set s.line pos 0 ≡ f ++ (w ++ []) =
      rw h.line (set-past (f ++ (w ++ [])) pos 0 size) in
    rw line (
      subst
        (λ k.
          map (token (f ++ (w ++ []))) (end_token max s k).argv
          ≡ take (max - 1) (ws ++ end_word w []))
        (sym p) (end_token-found max s f w [] [] ws hw refl h))

-- The rounds from a position on find the words from there on.
parse_loop-words :
    (max len pos : ℕ) (s : Tokens) (f w back : List ℕ) (ws : List (List ℕ))
    → All IsChar w
    → All IsChar back
    → pos ≡ length f + length w
    → len ≡ pos + length back
    → Scanned max s f w back ws
    → let t = parse_loop (suc (length back)) max len s pos in
      map (token t.line) t.argv ≡ take (max - 1) (ws ++ words_from w back)
parse_loop-words max len pos s f w [] ws hw hb p e h =
    let here : pos ≡ len = omega (arith, e) in
    let c = get_or s.line pos 0 in
    let last : (is_separator c || (pos == len)) ≡ true =
      rw (eq→== pos len here) (or_true (is_separator c)) in
    rw (parse_loop-round 0 max len s pos c true refl last)
      (parse_loop-last max len pos s f w ws hw p h)
parse_loop-words max len pos s f w (c ∷ back) ws hw hb p e h =
    let at : get_or s.line pos 0 ≡ c = rw (h.line, p) (get_or-middle f w back c) in
    let not_last : (pos == len) ≡ false = ne→== pos len (omega (arith, e)) in
    elim (Bool-cases (is_separator c)) [
      | inl sep ↦
          let f' = f ++ (w ++ 0 ∷ []) in
          let l = length-append f (w ++ 0 ∷ []) in
          let l' = length-append w (0 ∷ []) in
          let round = parse_loop-round (suc (length back)) max len s pos c true at (rw sep refl) in
          let next = end_token-Scanned max s f w back c ws hw h in
          let next' =
            subst (λ k. Scanned max (end_token max s k) f' [] back (ws ++ end_word w [])) (sym p)
              next in
          let ih =
            parse_loop-words max len (pos + 1) (end_token max s pos) f' [] back
              (ws ++ end_word w []) tt hb.1 (omega (arith, l, l', p)) (omega (arith, e)) next' in
          rw (round, sep, end_word-append w (words_from [] back))
            (ih ∙ ap (take (max - 1)) (append_assoc ws (end_word w []) (words_from [] back)))
      | inr part ↦
          let l = length-append w (c ∷ []) in
          let round =
            parse_loop-round (suc (length back)) max len s pos c false at
              (rw (part, not_last) refl) in
          rw (round, part)
            (parse_loop-words max len (pos + 1) s f (w ++ c ∷ []) back ws
              (All-append IsChar w (c ∷ []) hw (hb.0, tt)) hb.1 (omega (arith, l, p))
              (omega (arith, e))
              (record {
                line = h.line ∙ ap (λ r. f ++ r) (sym (append_assoc w (c ∷ []) back));
                start = h.start;
                found = h.found;
              }))
    ]

-- The tokens of a line of characters are its words, in their order, and at most `max - 1` of them.
pub parse_command-words :
    (line : List ℕ) (max : ℕ)
    → All IsChar line
    → let t = parse_command line max in map (token t.line) t.argv ≡ take (max - 1) (words line)
unfolding parse_command words strlen
parse_command-words line max h =
    let len : strlen line ≡ length line =
      ap strlen (sym (append-nil line)) ∙ strlen-append line [] h ∙ omega arith in
    let rounds : length line + 1 ≡ suc (length line) = omega arith in
    rw (len, rounds)
      (parse_loop-words max (length line) 0 (record { line = line; argv = []; start = 0 }) [] []
        line [] tt h refl (omega arith)
        (record { line = refl; start = refl; found = λ rest. take-nil (max - 1) }))
