-- ===== src/Fstool/Reading.antt =====
-- What the kernel reads at a place of an image where structures have been written.
use adelaideos.Common.{
  ℕ, zero, suc, ◌+◌, ◌%◌, ◌<◌, ◌≡◌, ◌∙◌, refl, sym, ap, List, [], ◌∷◌, ◌++◌, All, length, get_or,
  take, replicate, ne→==, length-append, get_or-append_left, get_or-append_right, arith, u32_mod,
}
use native.Mathlib.Numerals.{add-one}
use adelaideos.Libc.{strlen}
use adelaideos.Libc.Compare.{IsChar}
use adelaideos.Filesystem.{
  Image, read_u32, read_bytes, entry_size, entry_type, entry_location, entry_mode, entry_mtime,
  entry_name,
}
use adelaideos.Fstool.{DirectoryEntry, u32_bytes, entry_bytes, strncpy}

-- The bytes stand in the image at `at`.
abbrev pub Has : Image → ℕ → List ℕ → Type 0
Has fs at bytes = (i : ℕ) → i < length bytes → fs (at + i) ≡ get_or bytes i 0

pub Has-left : (fs : Image) (at : ℕ) (xs ys : List ℕ) → Has fs at (xs ++ ys) → Has fs at xs
Has-left fs at xs ys h i lt =
    h i (omega (arith, length-append {0} xs ys)) ∙ get_or-append_left xs ys i 0 lt

pub Has-right :
    (fs : Image) (at : ℕ) (xs ys : List ℕ) → Has fs at (xs ++ ys) → Has fs (at + length xs) ys
Has-right fs at xs ys h i lt =
    let e : at + length xs + i ≡ at + (length xs + i) = omega arith in
    ap fs e
    ∙ h (length xs + i) (omega (arith, length-append {0} xs ys))
    ∙ get_or-append_right xs ys i (length xs + i) 0 refl

pub read_bytes-Has :
    (fs : Image) (bytes : List ℕ) (at : ℕ)
    → Has fs at bytes
    → read_bytes fs (length bytes) at ≡ bytes
unfolding read_bytes
read_bytes-Has fs [] at h = refl
read_bytes-Has fs (b ∷ bs) at h =
    let first : at + 0 ≡ at = omega arith in
    let rest : Has fs (at + 1) bs = λ i lt.
      ap fs (let e : at + 1 + i ≡ at + suc i = omega arith in e) ∙ h (suc i) (omega arith) in
    rw (← first)
      (rw (h 0 (omega arith), first) (ap (λ r. b ∷ r) (read_bytes-Has fs bs (at + 1) rest)))

pub read_u32-Has :
    (fs : Image) (at v : ℕ) → v < u32_mod → Has fs at (u32_bytes v) → read_u32 fs at ≡ v
unfolding read_u32 u32_bytes
read_u32-Has fs at v lt h =
    let first : at + 0 ≡ at = omega arith in
    let b0 : fs at ≡ v % 256 = ap fs (sym first) ∙ h 0 (omega arith) in
    let b1 = h 1 (omega arith) in
    let b2 = h 2 (omega arith) in let b3 = h 3 (omega arith) in rw (b0, b1, b2, b3) (omega arith)

pub record Fits (e : DirectoryEntry) : Type 0 where
  pub size : e.size < u32_mod
  pub type : e.type < u32_mod
  pub location : e.location < u32_mod
  pub mode : e.mode < u32_mod
  pub mtime : e.mtime < u32_mod
  pub name : length e.name ≡ 256

-- The kernel reads the fields of an entry.
pub record IsEntry (fs : Image) (at : ℕ) (e : DirectoryEntry) : Type 0 where
  pub size : entry_size fs at ≡ e.size
  pub type : entry_type fs at ≡ e.type
  pub location : entry_location fs at ≡ e.location
  pub mode : entry_mode fs at ≡ e.mode
  pub mtime : entry_mtime fs at ≡ e.mtime
  pub name : entry_name fs at ≡ e.name

-- A structure behind a number.
behind_u32 :
    (fs : Image) (at k j v : ℕ) (rest : List ℕ)
    → j ≡ k + 4
    → Has fs (at + k) (u32_bytes v ++ rest)
    → Has fs (at + j) rest
unfolding u32_bytes
behind_u32 fs at k j v rest e h =
    let p : at + k + 4 ≡ at + j = omega arith in
    rw p at (Has-right fs (at + k) (u32_bytes v) rest h)

pub entry_bytes-IsEntry :
    (fs : Image) (at : ℕ) (e : DirectoryEntry)
    → Fits e
    → Has fs at (entry_bytes e)
    → IsEntry fs at e
unfolding entry_bytes entry_name
entry_bytes-IsEntry fs at e f h =
    let zero_off : at + 0 ≡ at = omega arith in
    let h0 : Has fs (at + 0) (entry_bytes e) = rw zero_off h in
    let r4 = u32_bytes e.mtime ++ e.name in
    let r3 = u32_bytes e.mode ++ r4 in
    let r2 = u32_bytes e.location ++ r3 in
    let r1 = u32_bytes e.type ++ r2 in
    let h1 = behind_u32 fs at 0 4 e.size r1 (omega arith) h0 in
    let h2 = behind_u32 fs at 4 8 e.type r2 (omega arith) h1 in
    let h3 = behind_u32 fs at 8 12 e.location r3 (omega arith) h2 in
    let h4 = behind_u32 fs at 12 16 e.mode r4 (omega arith) h3 in
    let h5 = behind_u32 fs at 16 20 e.mtime e.name (omega arith) h4 in
    record {
      size = read_u32-Has fs at e.size f.size (Has-left fs at (u32_bytes e.size) r1 h);
      type = read_u32-Has fs (at + 4) e.type f.type (Has-left fs (at + 4) (u32_bytes e.type) r2 h1);
      location =
          read_u32-Has fs (at + 8) e.location f.location
            (Has-left fs (at + 8) (u32_bytes e.location) r3 h2);
      mode =
          read_u32-Has fs (at + 12) e.mode f.mode (Has-left fs (at + 12) (u32_bytes e.mode) r4 h3);
      mtime =
          read_u32-Has fs (at + 16) e.mtime f.mtime
            (Has-left fs (at + 16) (u32_bytes e.mtime) e.name h4);
      name = rw f.name at (read_bytes-Has fs e.name (at + 20) h5);
    }

-- A name that strncpy has copied, with the byte behind it.
abbrev pub copied : List ℕ → ℕ → List ℕ
copied s held = strncpy 255 s ++ held ∷ []

strlen-zeros : (n held : ℕ) → strlen (0 ∷ (replicate n 0 ++ held ∷ [])) ≡ 0
unfolding strlen
strlen-zeros n held = refl

pub strlen-strncpy :
    (n held : ℕ) (s : List ℕ)
    → All IsChar s
    → length s < n
    → (strlen (strncpy n s ++ held ∷ []) ≡ length s)
      × (take (length s) (strncpy n s ++ held ∷ []) ≡ s)
unfolding strlen strncpy
strlen-strncpy zero held s h lt = absurd (omega arith)
strlen-strncpy (suc n) held [] h lt = (refl, refl)
strlen-strncpy (suc n) held (c ∷ s) h lt =
    let ih = strlen-strncpy n held s h.1 (omega arith) in
    rw (ne→== c 0 h.0.0) (rw (ne→== c 0 h.0.0, add-one) (ap suc ih.0, ap (λ r. c ∷ r) ih.1))

All-replicate_zero : (n : ℕ) → All (λ c. c < 256) (replicate n 0)
All-replicate_zero zero = tt
All-replicate_zero (suc n) = (omega arith, All-replicate_zero n)

pub strncpy-bytes : (n : ℕ) (s : List ℕ) → All IsChar s → All (λ c. c < 256) (strncpy n s)
unfolding strncpy
strncpy-bytes zero s h = tt
strncpy-bytes (suc n) [] h = (omega arith, All-replicate_zero n)
strncpy-bytes (suc n) (c ∷ s) h = rw (ne→== c 0 h.0.0) (h.0.1, strncpy-bytes n s h.1)
