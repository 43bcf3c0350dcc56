-- ===== src/Buddy/Tiles.antt =====
-- The blocks of the area: which entries of `blocks` are the first of a block, and that blocks do not
-- overlap. An entry stands for a granule of 2 ^ lower bytes.
use native.Mathlib.Nat.{two-pow-succ, one-le-pow}
use adelaideos.Common.{
  ℕ, suc, ◌+◌, ◌-◌, ◌*◌, ◌^◌, ◌≤◌, ◌<◌, ◌≡◌, false, update, update_self, update-ne, eq_or_ne, inl,
  inr, Bool-cases, leb, leb→le, arith,
}
use adelaideos.Buddy.{BlockInfo}

-- The granules of a block of size 2 ^ m.
abbrev pub granules : ℕ → ℕ → ℕ
granules lower m = 2 ^ (m - lower)

-- A place for a block of size 2 ^ m, at granule `i`: on a boundary of that size, within the area.
pub record IsPlace (lower upper i m : ℕ) : Type 0 where
  pub above : lower ≤ m
  pub below : m ≤ upper
  pub number : ℕ
  pub aligned : i ≡ number * granules lower m
  pub within : i + granules lower m ≤ granules lower upper

-- No block starts behind the first granule of the block.
abbrev pub IsClear : (ℕ → BlockInfo) → ℕ → ℕ → Type 0
IsClear s i n = (j : ℕ) → i < j → j < i + n → (s j).sizem ≡ 0

-- Every entry with a size is a block at its place, which no other block starts in; an entry without
-- a size is not marked as used.
pub record AreTiles (lower upper : ℕ) (s : ℕ → BlockInfo) : Type 0 where
  pub place : (i : ℕ) → 0 < (s i).sizem → IsPlace lower upper i (s i).sizem
  pub clear : (i : ℕ) → 0 < (s i).sizem → IsClear s i (granules lower (s i).sizem)
  pub unused : (i : ℕ) → (s i).sizem ≡ 0 → (s i).used ≡ false

-- An entry may be changed to a block at a place that is clear, unless it lies within another block;
-- or to no block.
pub record IsRoom (lower upper : ℕ) (s : ℕ → BlockInfo) (x : ℕ) (v : BlockInfo) : Type 0 where
  pub place : 0 < v.sizem → IsPlace lower upper x v.sizem
  pub clear : 0 < v.sizem → IsClear s x (granules lower v.sizem)
  pub outside : 0 < v.sizem → (k : ℕ) → 0 < (s k).sizem → k < x → k + granules lower (s k).sizem ≤ x
  pub unused : v.sizem ≡ 0 → v.used ≡ false

pub update-AreTiles :
    (lower upper : ℕ) (s : ℕ → BlockInfo) (x : ℕ) (v : BlockInfo)
    → AreTiles lower upper s
    → IsRoom lower upper s x v
    → AreTiles lower upper (update s x v)
update-AreTiles lower upper s x v t room = record {
  place = λ i. elim (eq_or_ne x i) [
    | inl e ↦ rw (← e, update_self s x v) room.place
    | inr n ↦ rw (update-ne s x i v n) (t.place i)
  ];
  clear = λ i. elim (eq_or_ne x i) [
    | inl e ↦
        rw (← e, update_self s x v)
          (λ live j lt below.
            rw (update-ne s x j v (λ z. omega (arith, z))) (room.clear live j lt below))
    | inr n ↦ rw (update-ne s x i v n) (λ live j lt below. elim (eq_or_ne x j) [
      | inl e ↦
          rw (← e, update_self s x v)
            (elim (eq_or_ne v.sizem 0) [
              | inl z ↦ z
              | inr full ↦ absurd (
                  let o = room.outside (omega (arith, full)) i live (omega (arith, e)) in
                  omega arith)
            ])
      | inr d ↦ rw (update-ne s x j v d) (t.clear i live j lt below)
    ])
  ];
  unused = λ i. elim (eq_or_ne x i) [
    | inl e ↦ rw (← e, update_self s x v) room.unused
    | inr n ↦ rw (update-ne s x i v n) (t.unused i)
  ];
}

-- A block ends before the next one starts.
pub tile-outside :
    (lower upper : ℕ) (s : ℕ → BlockInfo) (x k : ℕ)
    → AreTiles lower upper s
    → 0 < (s x).sizem
    → 0 < (s k).sizem
    → k < x
    → k + granules lower (s k).sizem ≤ x
tile-outside lower upper s x k t live other lt =
    elim (Bool-cases (leb (k + granules lower (s k).sizem) x)) [
      | inl fits ↦ leb→le (k + granules lower (s k).sizem) x fits
      | inr over ↦ absurd (let z = t.clear k other x lt (ground arith) in omega (arith, z))
    ]

pub granules-suc :
    (lower m : ℕ) → lower ≤ m → granules lower (suc m) ≡ granules lower m + granules lower m
granules-suc lower m h =
    let e : suc m - lower ≡ suc (m - lower) = omega arith in rw e (two-pow-succ (m - lower))

pub granules-pos : (lower m : ℕ) → 1 ≤ granules lower m
granules-pos lower m = one-le-pow (m - lower) 2 (omega arith)

-- The mark of a block may be changed.
pub mark-AreTiles :
    (lower upper : ℕ) (s : ℕ → BlockInfo) (x : ℕ) (v : BlockInfo)
    → AreTiles lower upper s
    → 0 < (s x).sizem
    → v.sizem ≡ (s x).sizem
    → AreTiles lower upper (update s x v)
mark-AreTiles lower upper s x v t live same = update-AreTiles lower upper s x v t (record {
  place = λ _. rw same (t.place x live);
  clear = λ _. rw same (t.clear x live);
  outside = λ _ k other lt. tile-outside lower upper s x k t live other lt;
  unused = λ z. absurd (omega (arith, same, z));
})
