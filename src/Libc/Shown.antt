-- ===== src/Libc/Shown.antt =====
-- What the array behind the printing functions holds: the text so far, as far as it fits.
use mathlib.Core.Path.{ap₂}
use mathlib.Core.List.{append-nil, append_assoc}
use adelaideos.Common.{
  ℕ, suc, ◌+◌, ◌-◌, ◌%◌, u32_mod, ◌≤◌, ◌<◌, ◌≡◌, ◌≢◌, ◌∙◌, inl, inr, refl, sym, ap, List, [], ◌∷◌,
  ◌++◌, length, get_or, set, take, drop, take-all, length-take, take-append-drop, ltb, eq_or_ne,
  arith, length-set, get_or-set_self, get_or-set_ne, get_or-append_left, get_or-append_last,
  length-append, Bool-cases, ltb→lt, ltb→le, lt→ltb, if◌then◌else◌,
}
use adelaideos.Libc.{Output, addchar}
use adelaideos.Libc.Digits.{add_all}
use adelaideos.Libc.Format.{put_nul}

pub record Shows (n : ℕ) (o : Output) (text : List ℕ) : Type 0 where
  pub at_end : o.at ≡ length text
  pub room : o.size ≡ n
  pub whole : length o.str ≡ n
  pub held : (i : ℕ) → i < length text → i + 1 < n → get_or o.str i 0 ≡ get_or text i 0

-- The array after addchar.
module _ (str : List ℕ) (at size c : ℕ) where
  abbrev stored : List ℕ
  stored = if ltb (at + 1) size then set str at c else str

  length-stored : length stored ≡ length str
  length-stored = elim (Bool-cases (ltb (at + 1) size)) [
    | inl t ↦ rw t (length-set str at c)
    | inr f ↦ rw f refl
  ]

  get_or-stored_self : (i : ℕ) → at ≡ i → i + 1 < size → length str ≡ size → get_or stored i 0 ≡ c
  get_or-stored_self i here h e =
      rw (here, lt→ltb (i + 1) size h) (get_or-set_self str i c 0 (omega arith))

  get_or-stored_ne : (i : ℕ) → at ≢ i → get_or stored i 0 ≡ get_or str i 0
  get_or-stored_ne i h = elim (Bool-cases (ltb (at + 1) size)) [
    | inl t ↦ rw t (get_or-set_ne str at i c 0 h)
    | inr f ↦ rw f refl
  ]

addchar-small :
    (o : Output) (c : ℕ)
    → o.at + 1 < u32_mod
    → addchar o c ≡ record { str = stored o.str o.at o.size c; size = o.size; at = o.at + 1 }
unfolding addchar
addchar-small o c h = let e : (o.at + 1) % u32_mod ≡ o.at + 1 = omega arith in rw e refl

pub addchar-Shows :
    (n : ℕ) (o : Output) (text : List ℕ) (c : ℕ)
    → length text + 1 < u32_mod
    → Shows n o text
    → Shows n (addchar o c) (text ++ c ∷ [])
addchar-Shows n o text c small h = rw (addchar-small o c (omega (arith, h.at_end))) (
    let longer : length (text ++ c ∷ []) ≡ length text + 1 = length-append {0} text (c ∷ []) in
    record {
      at_end = omega (arith, longer, h.at_end);
      room = h.room;
      whole = length-stored o.str o.at o.size c ∙ h.whole;
      held = λ i lt fits. elim (eq_or_ne (length text) i) [
        | inl e ↦
            get_or-stored_self o.str o.at o.size c i (h.at_end ∙ e) (omega (arith, h.room))
              (h.whole ∙ sym h.room)
            ∙ sym (get_or-append_last text c i 0 (sym e))
        | inr d ↦
            let before : i < length text = omega (arith, longer, d, lt) in
            get_or-stored_ne o.str o.at o.size c i (λ e. d (sym h.at_end ∙ e))
            ∙ h.held i before fits
            ∙ sym (get_or-append_left text (c ∷ []) i 0 before)
      ];
    })

pub add_all-Shows :
    (n : ℕ) (o : Output) (text cs : List ℕ)
    → length text + length cs < u32_mod
    → Shows n o text
    → Shows n (add_all o cs) (text ++ cs)
unfolding add_all
add_all-Shows n o text [] small h = rw append-nil h
add_all-Shows n o text (c ∷ cs) small h =
    let longer = length-append {0} text (c ∷ []) in
    rw (append_assoc text (c ∷ []) cs) at (
      add_all-Shows n (addchar o c) (text ++ c ∷ []) cs (omega (arith, longer))
        (addchar-Shows n o text c (omega arith) h))

-- Going back to an earlier position forgets what stood behind it.
pub rewind-Shows :
    (n at : ℕ) (o : Output) (text more : List ℕ)
    → at ≡ length text
    → Shows n o (text ++ more)
    → Shows n (record o { at = at }) text
rewind-Shows n at o text more e h =
    let longer : length (text ++ more) ≡ length text + length more = length-append {0} text more in
    record {
      at_end = e;
      room = h.room;
      whole = h.whole;
      held = λ i lt fits.
          h.held i (omega (arith, longer, lt)) fits ∙ get_or-append_left text more i 0 lt;
    }

take-same :
    (xs ys : List ℕ)
    → length ys ≤ length xs
    → ((i : ℕ) → i < length ys → get_or xs i 0 ≡ get_or ys i 0)
    → take (length ys) xs ≡ ys
take-same xs [] h e = refl
take-same [] (y ∷ ys) h e = absurd (omega arith)
take-same (x ∷ xs) (y ∷ ys) h e =
    ap₂ (λ a r. a ∷ r) (e 0 (omega arith))
      (take-same xs ys (omega arith) (λ i lt. e (suc i) (omega arith)))

finish_same :
    (n m i : ℕ) (o : Output) (text : List ℕ)
    → Shows n o text
    → m ≤ length text
    → m < n
    → i < m + 1
    → get_or (set o.str m 0) i 0 ≡ get_or (take m text ++ 0 ∷ []) i 0
finish_same n m i o text h le lt b =
    let size : length (take m text) ≡ m = length-take m text le in
    elim (eq_or_ne m i) [
      | inl e ↦
          rw e (get_or-set_self o.str i 0 0 (omega (arith, h.whole)))
          ∙ sym (get_or-append_last (take m text) 0 i 0 (sym e ∙ sym size))
      | inr d ↦
          let before : i < length (take m text) = omega (arith, size, d, b) in
          get_or-set_ne o.str m i 0 0 d
          ∙ h.held i (omega (arith, d)) (omega (arith, d))
          ∙ ap (λ r. get_or r i 0) (sym (take-append-drop m text))
          ∙ get_or-append_left (take m text) (drop m text) i 0 before
          ∙ sym (get_or-append_left (take m text) (0 ∷ []) i 0 before)
    ]

-- A NUL put behind the part of the text that the array has room for.
finish_at :
    (n m : ℕ) (o : Output) (text : List ℕ)
    → Shows n o text
    → m ≤ length text
    → m < n
    → take (m + 1) (set o.str m 0) ≡ take m text ++ 0 ∷ []
finish_at n m o text h le lt =
    let shown = take m text in
    let size : length shown ≡ m = length-take m text le in
    let more : length (shown ++ 0 ∷ []) ≡ m + 1 =
      rw (length-append {0} shown (0 ∷ []), size) refl in
    let array : length (set o.str m 0) ≡ n = length-set o.str m 0 ∙ h.whole in
    let same = λ (i : ℕ) (b : i < length (shown ++ 0 ∷ [])).
      finish_same n m i o text h le lt (omega (arith, more, b)) in
    rw more at (take-same (set o.str m 0) (shown ++ 0 ∷ []) (omega (arith, more, array, lt)) same)

-- At the end the array holds the text, cut off where it does not fit, with a NUL behind it.
pub put_nul-Shows :
    (n : ℕ) (o : Output) (text : List ℕ)
    → 0 < n
    → length text + 1 < u32_mod
    → Shows n o text
    → (length (put_nul o) ≡ n)
      × (take (length (take (n - 1) text) + 1) (put_nul o) ≡ take (n - 1) text ++ 0 ∷ [])
put_nul-Shows n o text pos small h =
    let e : (o.at + 1) % u32_mod ≡ o.at + 1 = omega (arith, h.at_end) in
    rw e (elim (Bool-cases (ltb (o.at + 1) o.size)) [
      | inl t ↦
          let fits : length text + 1 < n =
            omega (arith, ltb→lt (o.at + 1) o.size t, h.at_end, h.room) in
          rw
            (
              lt→ltb 0 o.size (omega (arith, h.room)),
              t,
              take-all (n - 1) text (omega arith),
              h.at_end,
            )
            (
              length-set o.str (length text) 0 ∙ h.whole,
              rw (take-all (length text) text (omega arith)) at
                  (finish_at n (length text) o text h (omega arith) (omega arith)),
            )
      | inr f ↦
          let full : n ≤ length text + 1 =
            omega (arith, ltb→le (o.at + 1) o.size f, h.at_end, h.room) in
          rw
            (
              lt→ltb 0 o.size (omega (arith, h.room)),
              f,
              h.room,
              length-take (n - 1) text (omega arith),
            )
            (
              length-set o.str (n - 1) 0 ∙ h.whole,
              finish_at n (n - 1) o text h (omega arith) (omega arith),
            )
    ])
