-- ===== src/Fstool/Append.antt =====
-- Appending to the image, while it stays within 2 ^ 31 bytes.
use mathlib.Core.List.{append-nil, append_assoc, flatten}
use native.Mathlib.Nat.{two-pow-succ, pow-le-pow_right}
use adelaideos.Common.{
  ℕ, zero, suc, ◌+◌, ◌*◌, ◌%◌, ◌^◌, ◌≤◌, ◌<◌, ◌≡◌, ◌∙◌, inl, inr, refl, sym, ap, List, [], ◌∷◌,
  ◌++◌, length, take, take-all, ltb, ltb→lt, Bool-cases, eq_or_ne, length-append, take-append,
  drop-append, drop-append_all, arith, u32_mod, Run, done,
}
use adelaideos.Fstool.{BuildOutput, grow_alloc, output_append, process_file, overwrite}

-- `size` counts the bytes, and a power of two is allocated.
pub record IsOutput (o : BuildOutput) : Type 0 where
  pub counted : o.size ≡ length o.contents
  pub power : (k : ℕ) × (o.alloc ≡ 2 ^ k) × (k ≤ 31)

-- A run that gives the output whose bytes are `bytes`.
abbrev pub Writes : Run BuildOutput → List ℕ → Type 0
Writes r bytes = (o : BuildOutput) × (r ≡ done o) × IsOutput o × (o.contents ≡ bytes)

doubled : (k : ℕ) → k < 31 → 2 ^ k * 2 % u32_mod ≡ 2 ^ suc k
doubled k h =
    let e = two-pow-succ k in
    let b : 2 ^ k ≤ 2 ^ 30 = pow-le-pow_right (omega arith) {i = k} {j = 30} (omega arith) in
    omega (arith, e, b)

grow_alloc-power :
    (fuel need k : ℕ)
    → need ≤ 2 ^ 31
    → k ≤ 31
    → 31 < k + fuel
    → (j : ℕ) × (j ≤ 31) × (grow_alloc fuel need (2 ^ k) ≡ done (2 ^ j))
unfolding grow_alloc
grow_alloc-power zero need k h le f = absurd (omega arith)
grow_alloc-power (suc fuel) need k h le f = elim (Bool-cases (ltb (2 ^ k) need)) [
  | inl t ↦
      let below : k < 31 = elim (eq_or_ne k 31) [
        | inl e ↦ absurd (omega (arith, ltb→lt (2 ^ 31) need (rw e at t)))
        | inr n ↦ omega arith
      ] in
      let (j, b, r) = grow_alloc-power fuel need (suc k) h below (omega arith) in
      (j, b, rw (t, grow_alloc) (rw (doubled k below) r))
  | inr n ↦ (k, le, rw (n, grow_alloc) refl)
]

pub output_append-Writes :
    (o : BuildOutput) (bytes : List ℕ)
    → IsOutput o
    → length o.contents + length bytes ≤ 2 ^ 31
    → Writes (output_append o bytes) (o.contents ++ bytes)
unfolding output_append
output_append-Writes o bytes h fits =
    let need : (o.size + length bytes) % u32_mod ≡ length o.contents + length bytes =
      omega (arith, h.counted) in
    let (k, e, le) = h.power in
    let (j, b, r) =
      grow_alloc-power 33 (length o.contents + length bytes) k fits le (omega arith) in
    let all : take o.size o.contents ≡ o.contents =
      take-all o.size o.contents (omega (arith, h.counted)) in
    (
      record {
        alloc = 2 ^ j;
        size = length o.contents + length bytes;
        contents = o.contents ++ bytes;
      },
      rw (need, e, all) (rw r refl),
      record { counted = sym (length-append {0} o.contents bytes); power = (j, refl, b) },
      refl,
    )

pub process_file-Writes :
    (o : BuildOutput) (pieces : List (List ℕ))
    → IsOutput o
    → length o.contents + length (flatten pieces) ≤ 2 ^ 31
    → Writes (process_file o pieces) (o.contents ++ flatten pieces)
unfolding process_file flatten
process_file-Writes o [] h fits = (o, refl, h, sym (append-nil o.contents))
process_file-Writes o (p ∷ ps) h fits =
    let long = length-append {0} p (flatten ps) in
    let (o1, r1, h1, c1) = output_append-Writes o p h (omega (arith, long)) in
    let long1 : length o1.contents ≡ length o.contents + length p =
      ap length c1 ∙ length-append {0} o.contents p in
    let (o2, r2, h2, c2) = process_file-Writes o1 ps h1 (omega (arith, long, long1)) in
    (o2, rw r1 r2, h2, c2 ∙ ap (λ r. r ++ flatten ps) c1 ∙ append_assoc o.contents p (flatten ps))

-- The directory that was appended behind `before` is exchanged for one of the same length.
pub overwrite-lem :
    (o : BuildOutput) (before old new after : List ℕ)
    → o.contents ≡ before ++ (old ++ after)
    → length old ≡ length new
    → (overwrite o (length before) new).contents ≡ before ++ (new ++ after)
unfolding overwrite
overwrite-lem o before old new after e same =
    rw
      (e, take-append before (old ++ after), drop-append before (old ++ after) (length new), ← same)
      (rw (drop-append_all old after) refl)

pub overwrite-IsOutput :
    (o : BuildOutput) (before old new after : List ℕ)
    → IsOutput o
    → o.contents ≡ before ++ (old ++ after)
    → length old ≡ length new
    → IsOutput (overwrite o (length before) new)
overwrite-IsOutput o before old new after h e same =
    let long1 = length-append {0} before (old ++ after) in
    let long2 = length-append {0} old after in
    let long3 = length-append {0} before (new ++ after) in
    let long4 = length-append {0} new after in
    let now = ap length (overwrite-lem o before old new after e same) in
    let was = ap length e in
    unfold overwrite in
    record {
      counted = omega (arith, h.counted, was, now, same, long1, long2, long3, long4);
      power = h.power;
    }
