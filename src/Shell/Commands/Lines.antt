-- ===== src/Shell/Commands/Lines.antt =====
-- What the shell does with its input: the lines in it, and the words of each.
use adelaideos.Common.{
  ℕ, ◌≡◌, ◌≢◌, refl, ap, sym, ◌∙◌, codes, Bool, List, [], ◌∷◌, ◌++◌, ne→==, All, All-map,
  All-append, take,
}
use mathlib.Core.List.{append_assoc, append-nil}
use adelaideos.Libc.Compare.{IsChar}
use adelaideos.User.{
  Ending, goes_on, exited, replaced, stopped, Program, and_then, ◌>>=◌, give, System, printf,
  texts_of,
}
use adelaideos.Shell.Words.{words, parse_command-words}
use adelaideos.Shell.Commands.{argv_of, process_args, process_line, scan_input}

and_then_assoc :
    {S A B C : Type 0} (e : Ending S A) (f : A → Program S B) (g : B → Program S C)
    → and_then (and_then e f) g ≡ and_then e (λ a s. and_then (f a s) g)
and_then_assoc (goes_on a s) f g = refl
and_then_assoc (exited n s) f g = refl
and_then_assoc (replaced s) f g = refl
and_then_assoc (stopped e) f g = refl

and_then_same :
    {S A B : Type 0} (e : Ending S A) (f g : A → Program S B)
    → ((a : A) (s : S) → f a s ≡ g a s)
    → and_then e f ≡ and_then e g
and_then_same (goes_on a s) f g h = h a s
and_then_same (exited n s) f g h = refl
and_then_same (replaced s) f g h = refl
and_then_same (stopped e) f g h = refl

-- A program that goes on in the same way behind two calls.
and_then_two :
    {S A B C D : Type 0} (e : Ending S A) (p : Program S B) (f : A → Program S C)
    (h : A → Program S D) (g : C → Program S D)
    → ((a : A) (s : S) → h a s ≡ and_then (f a s) g)
    → and_then e (λ a s. and_then (p s) (λ _. h a))
      ≡ and_then (and_then e (λ a s. and_then (p s) (λ _. f a))) g
and_then_two e p f h g same =
    and_then_same e (λ a s. and_then (p s) (λ _. h a))
      (λ a s. and_then (and_then (p s) (λ _. f a)) g)
      (λ a s.
        and_then_same (p s) (λ _. h a) (λ _ t. and_then (f a t) g) (λ _. same a)
        ∙ sym (and_then_assoc (p s) (λ _. f a) g))
    ∙ sym (and_then_assoc e (λ a s. and_then (p s) (λ _. f a)) g)

-- A line: characters without a newline.
abbrev pub IsLine : List ℕ → Type 0
IsLine = All (λ c. IsChar c × (c ≢ 10))

-- Lines, each with its newline.
abbrev pub text_of : List (List ℕ) → List ℕ
text_of [] = []
text_of (l ∷ ls) = l ++ 10 ∷ text_of ls

-- The commands of the lines, each made of the first 31 words of its line, with a prompt behind each; the
-- result says whether one of them was exit.
unfoldable pub run_lines : {S : Type 0} → System S → List (List ℕ) → Bool → Program S Bool
run_lines sys [] done = give done
run_lines sys (l ∷ ls) done = do
  done ← process_args sys (take 31 (words l)) done
  _ ← printf sys (texts_of []) (codes "$ ")
  run_lines sys ls done

process_line-words :
    {S : Type 0} (sys : System S) (line : List ℕ) (done : Bool)
    → All IsChar line
    → process_line sys line done ≡ process_args sys (take 31 (words line)) done
unfolding process_line argv_of
process_line-words sys line done h =
    ap (λ a. process_args sys a done) (parse_command-words line 32 h)

scan_input-other :
    {S : Type 0} (sys : System S) (line : List ℕ) (c : ℕ) (input : List ℕ) (done : Bool)
    → c ≢ 10
    → scan_input sys line (c ∷ input) done ≡ scan_input sys (line ++ c ∷ []) input done
unfolding scan_input
scan_input-other sys line c input done h = rw (scan_input, ne→== c 10 h) refl

scan_input-newline :
    {S : Type 0} (sys : System S) (line input : List ℕ) (done : Bool)
    → scan_input sys line (10 ∷ input) done ≡ (
        process_line sys line done >>= λ d.
        printf sys (texts_of []) (codes "$ ") >>= λ _. scan_input sys [] input d)
unfolding scan_input
scan_input-newline sys line input done = refl

-- What is read up to a newline is added to the line.
scan_input-part :
    {S : Type 0} (sys : System S) (line part input : List ℕ) (done : Bool)
    → All (λ c. c ≢ 10) part
    → scan_input sys line (part ++ input) done ≡ scan_input sys (line ++ part) input done
scan_input-part sys line [] input done h = rw (append-nil line) refl
scan_input-part sys line (c ∷ part) input done h =
    scan_input-other sys line c (part ++ input) done h.0
    ∙ scan_input-part sys (line ++ c ∷ []) part input done h.1
    ∙ ap (λ l. scan_input sys l input done) (append_assoc line (c ∷ []) part)

scan_input-line :
    {S : Type 0} (sys : System S) (held l : List ℕ) (ls : List (List ℕ)) (rest : List ℕ)
    (done : Bool) (s : S)
    → IsLine held
    → IsLine l
    → ((d : Bool) (t : S)
        → scan_input sys [] (text_of ls ++ rest) d t
          ≡ and_then (run_lines sys ls d t) (λ d. give (rest, d)))
    → scan_input sys held (text_of (l ∷ ls) ++ rest) done s
      ≡ and_then (run_lines sys ((held ++ l) ∷ ls) done s) (λ d. give (rest, d))
unfolding run_lines
scan_input-line sys held l ls rest done s hh hl behind =
    let line = held ++ l in
    let chars : All IsChar line =
      All-map (λ c. IsChar c × (c ≢ 10)) IsChar line (λ c h. h.0)
        (All-append (λ c. IsChar c × (c ≢ 10)) held l hh hl) in
    let part = All-map (λ c. IsChar c × (c ≢ 10)) (λ c. c ≢ 10) l (λ c h. h.1) hl in
    let input = text_of ls ++ rest in
    ap (λ r. scan_input sys held r done s) (append_assoc l (10 ∷ text_of ls) rest)
    ∙ ap (λ p. p s) (scan_input-part sys held l (10 ∷ input) done part)
    ∙ ap (λ p. p s) (scan_input-newline sys line input done)
    ∙ ap
        (λ p. and_then (p s) (λ d t.
          and_then (printf sys (texts_of []) (codes "$ ") t) (λ _. scan_input sys [] input d)))
        (process_line-words sys line done chars)
    ∙ and_then_two (process_args sys (take 31 (words line)) done s)
        (printf sys (texts_of []) (codes "$ ")) (λ d. run_lines sys ls d)
        (λ d. scan_input sys [] input d) (λ d. give (rest, d)) behind

scan_input-rest :
    {S : Type 0} (sys : System S) (rest : List ℕ) (done : Bool) (s : S)
    → All (λ c. c ≢ 10) rest
    → scan_input sys [] rest done s ≡ goes_on (rest, done) s
unfolding scan_input
scan_input-rest sys rest done s h =
    ap (λ r. scan_input sys [] r done s) (sym (append-nil rest))
    ∙ ap (λ p. p s) (scan_input-part sys [] rest [] done h)

-- The shell's input, behind the part of a line that is held from before, consists of the end of this
-- line, of other lines, and of a rest without a newline. Then what the shell does is to run these lines
-- in their order, each as the command that its first 31 words say and with a prompt behind it, and the
-- rest is kept for the next input; a line that is the command exit does not keep those behind it from
-- being run. The lines consist of characters, none of which is NUL.
pub scan_input-lines :
    {S : Type 0} (sys : System S) (held l : List ℕ) (ls : List (List ℕ)) (rest : List ℕ)
    (done : Bool) (s : S)
    → IsLine held
    → IsLine l
    → All IsLine ls
    → All (λ c. c ≢ 10) rest
    → scan_input sys held (text_of (l ∷ ls) ++ rest) done s
      ≡ and_then (run_lines sys ((held ++ l) ∷ ls) done s) (λ d. give (rest, d))
unfolding run_lines
scan_input-lines sys held l [] rest done s hh hl hls hr =
    scan_input-line sys held l [] rest done s hh hl (λ d t. scan_input-rest sys rest d t hr)
scan_input-lines sys held l (m ∷ ls) rest done s hh hl hls hr =
    scan_input-line sys held l (m ∷ ls) rest done s hh hl
      (λ d t. scan_input-lines sys [] m ls rest d t tt hls.0 hls.1 hr)
