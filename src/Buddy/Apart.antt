-- ===== src/Buddy/Apart.antt =====
-- Blocks in use do not overlap.
use adelaideos.Common.{
  ℕ, ◌+◌, ◌*◌, ◌^◌, ◌≤◌, ◌<◌, ◌≡◌, ◌≢◌, ap, ◌∙◌, List, [], true, eq_or_ne, ltb, ltb→lt, ltb→le, ◌⊎◌,
  inl, inr, Bool-cases, arith,
}
use adelaideos.Buddy.{MemArea}
use adelaideos.Buddy.Tiles.{granules, IsPlace, AreTiles, tile-outside}
use adelaideos.Buddy.Heap.{IsHeap, granules-bytes, place_fits, add_mul, mul_mono}
use adelaideos.Buddy.Take.{Takes}

-- The bytes of two blocks, of sizes 2 ^ m and 2 ^ n, do not overlap.
abbrev pub AreApart : ℕ → ℕ → ℕ → ℕ → ℕ → Type 0
AreApart lower i m k n =
    (i * 2 ^ lower + 2 ^ m ≤ k * 2 ^ lower) ⊎ (k * 2 ^ lower + 2 ^ n ≤ i * 2 ^ lower)

pub used_size :
    (ma : MemArea) (k : ℕ)
    → AreTiles ma.lower ma.upper ma.blocks
    → (ma.blocks k).used ≡ true
    → 0 < (ma.blocks k).sizem
used_size ma k t u = elim (eq_or_ne (ma.blocks k).sizem 0) [
  | inl z ↦ let idle = t.unused k z in cc (u, idle)
  | inr n ↦ omega (arith, n)
]

before_apart :
    (ma : MemArea) (i k : ℕ)
    → AreTiles ma.lower ma.upper ma.blocks
    → 0 < (ma.blocks i).sizem
    → 0 < (ma.blocks k).sizem
    → i < k
    → i * 2 ^ ma.lower + 2 ^ (ma.blocks i).sizem ≤ k * 2 ^ ma.lower
before_apart ma i k t live other lt =
    let g = granules ma.lower (ma.blocks i).sizem in
    let out = tile-outside ma.lower ma.upper ma.blocks k i t other live lt in
    omega (
      arith,
      add_mul i g (2 ^ ma.lower),
      mul_mono (i + g) k (2 ^ ma.lower) out,
      granules-bytes ma.lower (ma.blocks i).sizem (t.place i live).above,
    )

used_apart :
    (ma : MemArea) (i k : ℕ)
    → AreTiles ma.lower ma.upper ma.blocks
    → (ma.blocks i).used ≡ true
    → (ma.blocks k).used ≡ true
    → i ≢ k
    → AreApart ma.lower i (ma.blocks i).sizem k (ma.blocks k).sizem
used_apart ma i k t ui uk n =
    let si = used_size ma i t ui in
    let sk = used_size ma k t uk in
    elim (Bool-cases (ltb i k)) [
      | inl lt ↦ inl (before_apart ma i k t si sk (ltb→lt i k lt))
      | inr ge ↦ inr (before_apart ma k i t sk si (omega (arith, n, ltb→le i k ge)))
    ]

-- The block that is taken lies in the area, and away from those that were in use.
pub taken_apart :
    (ma ma' : MemArea) (free' : ℕ → List ℕ) (i m : ℕ)
    → IsHeap ma' free' []
    → Takes ma ma' i m
    → (i * 2 ^ ma.lower + 2 ^ m ≤ 2 ^ ma.upper)
      × ((k : ℕ) → (ma.blocks k).used ≡ true → AreApart ma.lower i m k (ma.blocks k).sizem)
taken_apart ma ma' free' i m h t =
    let size = ap (λ b. b.sizem) t.taken in
    let used = ap (λ b. b.used) t.taken in
    let place : IsPlace ma'.lower ma'.upper i m =
      rw size at (h.tiles.place i (used_size ma' i h.tiles used)) in
    (
      rw (t.lower, t.upper) at (place_fits ma'.lower ma'.upper i m place),
      λ k u.
          let n : i ≢ k = (λ e. cc (t.idle, u, ap (λ z. (ma.blocks z).used) e)) in
          let keep = t.kept k u in
          let apart = used_apart ma' i k h.tiles used (ap (λ b. b.used) keep ∙ u) n in
          rw (t.lower, size, ap (λ b. b.sizem) keep) at apart,
    )
