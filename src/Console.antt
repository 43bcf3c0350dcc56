-- ===== src/Console.antt =====
-- kprintf of source/libc.c, the screens that fatal and __assert of source/interrupts.c leave, and
-- print_regs.
pub mod Printed
use adelaideos.Common.{
  ℕ, Bool, List, [], ◌∷◌, not, take, get_or, ltb, if◌then◌else◌, codes, Run, done, stop, overrun,
  ◌>>=◌, ◌>>◌, assert,
}
use adelaideos.Screen.{Screen, write_to_screen, addstr}
use adelaideos.Kernel.{Regs}
use adelaideos.Libc.Format.{Varargs, vsnprintf}

-- `buf` is what the array of 4096 bytes holds at first, `user` the result of in_user_mode.
unfoldable pub kprintf : Bool → List ℕ → Varargs → List ℕ → Screen → Run Screen
kprintf user buf v format s = do
  assert (not user)
  (array, len) ← vsnprintf v buf 4096 format
  if ltb 4096 len then stop overrun else done (write_to_screen (take len array) s)

-- Arguments that are numbers.
abbrev pub words_of : List ℕ → Varargs
words_of ws = record { word = λ n. get_or ws n 0; text = λ a. [] }

abbrev pub kprint : List ℕ → List ℕ → List ℕ → Screen → Run Screen
kprint buf format words s = kprintf Bool.false buf (words_of words) format s

unfoldable pub print_regs : List ℕ → Regs → ℕ → Screen → Run Screen
print_regs buf r cr2 s = do
  s ← kprint buf (codes "edi %10p        gs      %10p\n") (r.edi ∷ r.gs ∷ []) s
  s ← kprint buf (codes "esi %10p        fs      %10p\n") (r.esi ∷ r.fs ∷ []) s
  s ← kprint buf (codes "ebp %10p        es      %10p\n") (r.ebp ∷ r.es ∷ []) s
  s ← kprint buf (codes "esp %10p        ds      %10p\n") (r.esp ∷ r.ds ∷ []) s
  s ← kprint buf (codes "ebx %10p        eip     %10p\n") (r.ebx ∷ r.eip ∷ []) s
  s ← kprint buf (codes "edx %10p        cs      %10p\n") (r.edx ∷ r.cs ∷ []) s
  s ← kprint buf (codes "ecx %10p        eflags  %10p\n") (r.ecx ∷ r.eflags ∷ []) s
  s ← kprint buf (codes "eax %10p        useresp %10p\n") (r.eax ∷ r.useresp ∷ []) s
  s ← kprint buf (codes "                      ss      %10p\n") (r.ss ∷ []) s
  kprint buf (codes "cr2 = %p\n") (cr2 ∷ []) s

-- The screen with which fatal loops for ever.
unfoldable pub fatal : List ℕ → Screen → Screen
fatal str s = let (x, s) = addstr 0 (codes "Fatal error: ") s in let (x, s) = addstr x str s in s

-- The screen with which __assert loops for ever, outside user mode.
unfoldable pub assert_screen : List ℕ → List ℕ → Screen → Screen
assert_screen str function s =
    let (x, s) = addstr 0 (codes "Assertion failure in ") s in
    let (x, s) = addstr x function s in
    let (x, s) = addstr x (codes ": ") s in let (x, s) = addstr x str s in s
