-- ===== src/User.antt =====
-- Programs of user mode. A program runs on the state of the system as far as it can see it, and changes
-- it by system calls, which are parameters; beside them stand the user-space malloc and free, and what
-- an array on the stack holds at first. Here are printf, strerror, perror and the functions on
-- directories of source/libc.c.
pub mod Programs
pub mod Malloc
use adelaideos.Common.{
  ℕ, ◌+◌, Bool, Option, none, some, List, [], ◌∷◌, get_or, take, ltb, leb, ◌==◌, if◌then◌else◌,
  codes, ℤ, pos, negsuc, Run, done, stop, Stop, overrun, null_access,
}
use adelaideos.Libc.{strlen}
use adelaideos.Libc.Format.{Varargs, vsnprintf}

-- A program goes on with a value, has called exit, has been replaced by another through execve, or has
-- stopped where the source has no defined behaviour.
pub data Ending (S A : Type 0) : Type 0 where
  goes_on : A → S → Ending S A
  exited : ℕ → S → Ending S A
  replaced : S → Ending S A
  stopped : Stop → Ending S A

abbrev pub Program : Type 0 → Type 0 → Type 0
Program S A = S → Ending S A

abbrev pub and_then : {S A B : Type 0} → Ending S A → (A → Program S B) → Ending S B
and_then (goes_on a s) f = f a s
and_then (exited n s) f = exited n s
and_then (replaced s) f = replaced s
and_then (stopped e) f = stopped e

infixl 5 ◌>>=◌ ◌>>◌
abbrev pub ◌>>=◌ : {S A B : Type 0} → Program S A → (A → Program S B) → Program S B
(m >>= f) s = and_then (m s) f

abbrev pub ◌>>◌ : {S A B : Type 0} → Program S A → Program S B → Program S B
(m >> k) s = and_then (m s) (λ _. k)

abbrev pub give : {S A : Type 0} → A → Program S A
give a s = goes_on a s

-- Code that needs no call.
abbrev pub pure : {S A : Type 0} → Run A → Program S A
pure (done a) s = goes_on a s
pure (stop e) s = stopped e

-- struct stat, of which the programs read two fields.
pub record Stat : Type 0 where
  pub st_mode : ℕ
  pub st_size : ℕ

-- A call that returns a negative number, or NULL, gives `none` or false. `execve` returns only where it
-- fails. `getdent` gives the name, where it returns 1.
pub record System (S : Type 0) : Type 0 where
  pub getpid : Program S ℕ
  pub geterrno : Program S ℕ
  pub write : ℕ → List ℕ → Program S (Option ℕ)
  pub read : ℕ → ℕ → Program S (Option (List ℕ))
  pub open_path : List ℕ → ℕ → Program S (Option ℕ)
  pub close : ℕ → Program S (Unit {0})
  pub getdent : ℕ → Program S (Option (List ℕ))
  pub stat : List ℕ → Program S (Option Stat)
  pub chdir : List ℕ → Program S Bool
  pub getcwd : ℕ → Program S (Option (List ℕ))
  pub brk : ℕ → Program S Bool
  pub fork : Program S (Option ℕ)
  pub execve : List ℕ → List (List ℕ) → Program S (Unit {0})
  pub waitpid : ℕ → Program S Bool
  pub malloc : ℕ → Program S ℕ
  pub free : ℕ → Program S (Unit {0})
  pub stack : List ℕ

-- exit does not return.
abbrev pub exit : {S A : Type 0} → ℕ → Program S A
exit n s = exited n s

-- Arguments that are strings, and one number before strings.
abbrev pub texts_of : List (List ℕ) → Varargs
texts_of ts = record { word = λ n. n; text = λ a. get_or ts a [] }

abbrev pub number_and_text : ℕ → List ℕ → Varargs
number_and_text n t = record { word = λ i. if i == 0 then n else 0; text = λ a. t }

module _ {S : Type 0} (sys : System S) where
  -- In user mode, which is where these programs run.
  unfoldable pub printf : Varargs → List ℕ → Program S (Unit {0})
  printf v format = do
    (array, len) ← pure (vsnprintf v sys.stack 4096 format)
    if ltb 4096 len then pure (stop overrun) else do _ ← sys.write 1 (take len array); give tt

  -- The string that snprintf leaves in an array of `size` bytes.
  unfoldable pub print_path : ℕ → List ℕ → List (List ℕ) → Program S (List ℕ)
  print_path size format ts = do
    (array, len) ← pure (vsnprintf (texts_of ts) (take size sys.stack) size format)
    give (take (strlen array) array)

module _ {S : Type 0} (sys : System S) where
  -- What __assert does in user mode.
  unfoldable pub user_mode_assert : List ℕ → List ℕ → Program S (Unit {0})
  user_mode_assert str function = do
    _ ← printf sys (texts_of (function ∷ str ∷ [])) (codes "Assertion failure in %s: %s\n")
    exit 1

abbrev error_names : List (List ℕ)
error_names =
    codes "Success"
    ∷ codes ""
    ∷ codes "Bad file descriptor"
    ∷ codes "Invalid argument"
    ∷ codes "No such process"
    ∷ codes "Operation not permitted"
    ∷ codes "No such file or directory"
    ∷ codes "Too many open files"
    ∷ codes "Is a directory"
    ∷ codes "Not a directory"
    ∷ codes "Function not implemented"
    ∷ codes "Not enough space"
    ∷ codes "Bad address"
    ∷ codes "Resource unavailable, try again"
    ∷ codes "No child processes"
    ∷ []

-- errno is not negative.
unfoldable pub strerror : ℕ → List ℕ
strerror errnum = get_or error_names errnum (codes "Unknown error")

-- The structure that opendir allocates; readdir hands out its second part.
pub record Dir : Type 0 where
  pub at : ℕ
  pub fd : ℕ

module _ {S : Type 0} (sys : System S) where
  -- `none` stands for NULL. The second branch prints `s` where it should print the message.
  unfoldable pub perror : Option (List ℕ) → Program S (Unit {0})
  perror none = pure (stop null_access)
  perror (some []) = do
    n ← sys.geterrno
    printf sys (texts_of ([] ∷ strerror n ∷ [])) (codes "%s\n")
  perror (some (c ∷ s)) = do
    n ← sys.geterrno
    printf sys (texts_of ((c ∷ s) ∷ strerror n ∷ [])) (codes "%s: %s\n")

  unfoldable pub opendir : List ℕ → Program S (Option Dir)
  opendir filename = do
    opened ← sys.open_path filename 0xFFFF
    elim opened [
      | none ↦ give none
      | some fd ↦ (do at ← sys.malloc 1036; give (some (record { at = at; fd = fd })))
    ]

  unfoldable pub readdir : Dir → Program S (Option (List ℕ))
  readdir d = sys.getdent d.fd

  unfoldable pub closedir : Dir → Program S (Unit {0})
  closedir d = do _ ← sys.close d.fd; sys.free d.at
