-- ===== src/Buddy/Halves.antt =====
-- Splitting a block into two halves, and merging two halves, keep the blocks apart.
use mathlib.Core.Path.{fun_ext}
use adelaideos.Common.{
  ℕ, suc, ◌+◌, ◌*◌, ◌≤◌, ◌<◌, ◌≡◌, ◌≢◌, ap, subst, false, update, update_self, update-ne, eq_or_ne,
  inl, inr, Bool-cases, ltb, ltb→lt, ltb→le, arith,
}
use adelaideos.Buddy.{BlockInfo}
use adelaideos.Buddy.Tiles.{
  granules, IsPlace, AreTiles, IsRoom, update-AreTiles, tile-outside, granules-suc, granules-pos,
}

odd_half : (n g : ℕ) → (n + n + 1) * g ≡ n * (g + g) + g
odd_half n g = grind arith

module _ (lower upper : ℕ) (s : ℕ → BlockInfo) (x m : ℕ) (t : AreTiles lower upper s)
    (size : (s x).sizem ≡ suc m) (above : lower ≤ m) where
  whole : IsPlace lower upper x (suc m)
  whole = rw size at (t.place x (omega (arith, size)))

  -- The second half of a block is in use by no block of its own.
  pub half_free : (s (x + granules lower m)).sizem ≡ 0
  half_free =
      t.clear x (omega (arith, size)) (x + granules lower m) (omega (arith, granules-pos lower m))
        (rw size (omega (arith, granules-suc lower m above, granules-pos lower m)))

  first-IsRoom : (a : BlockInfo) → a.sizem ≡ m → 0 < m → IsRoom lower upper s x a
  first-IsRoom a ea pos =
      let w = whole in
      let g = granules-suc lower m above in
      record {
        place = λ _. rw ea (record {
          above = above;
          below = omega (arith, w.below);
          number = w.number + w.number;
          aligned = grind (arith, w.aligned, g);
          within = omega (arith, w.within, g);
        });
        clear = λ _ j lt below.
            let near : j < x + granules lower m = rw ea at below in
            t.clear x (omega (arith, size)) j lt (rw size (omega (arith, g)));
        outside = λ _ k other lt. tile-outside lower upper s x k t (omega (arith, size)) other lt;
        unused = λ z. absurd (omega (arith, z, ea, pos));
      }

  second-IsRoom :
      (a b : BlockInfo)
      → a.sizem ≡ m
      → b.sizem ≡ m
      → 0 < m
      → IsRoom lower upper (update s x a) (x + granules lower m) b
  second-IsRoom a b ea eb pos =
      let w = whole in
      let g = granules-suc lower m above in
      let p = granules-pos lower m in
      record {
        place = λ _. rw eb (record {
          above = above;
          below = omega (arith, w.below);
          number = w.number + w.number + 1;
          aligned =
              let e = odd_half w.number (granules lower m) in
              let f = ap (λ n. w.number * n) g in omega (arith, w.aligned, e, f);
          within = omega (arith, w.within, g);
        });
        clear = λ _ j lt below.
            let near : j < x + granules lower m + granules lower m = rw eb at below in
            rw (update-ne s x j a (λ e. omega (arith, e, p)))
              (t.clear x (omega (arith, size)) j (omega (arith, p)) (rw size (omega (arith, g))));
        outside = λ _ k live lt. elim (eq_or_ne x k) [
          | inl e ↦ rw (← e, update_self s x a, ea) (omega arith)
          | inr n ↦ rw (update-ne s x k a n) (
              let other : 0 < (s k).sizem = rw (update-ne s x k a n) at live in
              elim (Bool-cases (ltb k x)) [
                | inl before ↦
                    let o =
                      tile-outside lower upper s x k t (omega (arith, size)) other
                        (ltb→lt k x before) in
                    omega (arith, o)
                | inr behind ↦ absurd (
                    let c =
                      t.clear x (omega (arith, size)) k (omega (arith, n, ltb→le k x behind))
                        (rw size (omega (arith, g))) in
                    omega (arith, c))
              ])
        ];
        unused = λ z. absurd (omega (arith, z, eb, pos));
      }

  -- A block of size 2 ^ (m + 1) may be split into two of half the size.
  pub split-AreTiles :
      (a b : BlockInfo)
      → a.sizem ≡ m
      → b.sizem ≡ m
      → 0 < m
      → AreTiles lower upper (update (update s x a) (x + granules lower m) b)
  split-AreTiles a b ea eb pos =
      update-AreTiles lower upper (update s x a) (x + granules lower m) b
        (update-AreTiles lower upper s x a t (first-IsRoom a ea pos)) (second-IsRoom a b ea eb pos)

update_comm :
    (s : ℕ → BlockInfo) (x y : ℕ) (a b : BlockInfo)
    → x ≢ y
    → update (update s y b) x a ≡ update (update s x a) y b
update_comm s x y a b n = fun_ext (λ i. ground arith)

-- Two blocks of size 2 ^ m that are the halves of a place for one of twice the size may be merged.
module _ (lower upper : ℕ) (s : ℕ → BlockInfo) (x m : ℕ) (t : AreTiles lower upper s)
    (low : (s x).sizem ≡ m) (high : (s (x + granules lower m)).sizem ≡ m) (pos : 0 < m)
    (whole : IsPlace lower upper x (suc m)) (above : lower ≤ m) where
  gone :
      (b : BlockInfo) → b.sizem ≡ 0 → b.used ≡ false → IsRoom lower upper s (x + granules lower m) b
  gone b eb ub = record {
    place = λ z. absurd (omega (arith, eb, z));
    clear = λ z. absurd (omega (arith, eb, z));
    outside = λ z. absurd (omega (arith, eb, z));
    unused = λ _. ub;
  }

  merged-IsRoom :
      (a b : BlockInfo)
      → a.sizem ≡ suc m
      → b.sizem ≡ 0
      → IsRoom lower upper (update s (x + granules lower m) b) x a
  merged-IsRoom a b ea eb =
      let h = x + granules lower m in
      let g = granules-suc lower m above in
      let p = granules-pos lower m in
      record {
        place = λ _. rw ea whole;
        clear = λ _ j lt below.
            let near : j < x + granules lower m + granules lower m =
              (let b' : j < x + granules lower (suc m) = rw ea at below in omega (arith, g, b')) in
            elim (eq_or_ne h j) [
              | inl e ↦ rw (← e, update_self s h b) eb
              | inr n ↦ rw (update-ne s h j b n) (elim (Bool-cases (ltb j h)) [
                | inl before ↦ t.clear x (omega (arith, low, pos)) j lt (rw low (ltb→lt j h before))
                | inr behind ↦
                    t.clear h (omega (arith, high, pos)) j (omega (arith, n, ltb→le j h behind))
                      (rw high near)
              ])
            ];
        outside = λ _ k live lt.
            let n : h ≢ k = (λ e. omega (arith, e)) in
            let other : 0 < (s k).sizem = rw (update-ne s h k b n) at live in
            rw (update-ne s h k b n)
              (tile-outside lower upper s x k t (omega (arith, low, pos)) other lt);
        unused = λ z. absurd (omega (arith, z, ea));
      }

  pub merge-AreTiles :
      (a b : BlockInfo)
      → a.sizem ≡ suc m
      → b.sizem ≡ 0
      → b.used ≡ false
      → AreTiles lower upper (update (update s x a) (x + granules lower m) b)
  merge-AreTiles a b ea eb ub =
      let h = x + granules lower m in
      subst (AreTiles lower upper)
        (update_comm s x h a b (λ e. omega (arith, e, granules-pos lower m)))
        (update-AreTiles lower upper (update s h b) x a
          (update-AreTiles lower upper s h b t (gone b eb ub)) (merged-IsRoom a b ea eb))
