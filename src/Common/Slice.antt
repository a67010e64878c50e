-- ===== src/Common/Slice.antt =====
-- A run of values of a function on indices, as a list.
use Prim.Native.Nat.{ℕ, zero, suc, ◌+◌, ◌-◌, ◌≤◌, ◌<◌}
use mathlib.Core.Path.{◌≡◌, refl, ap, ap₂, ◌∙◌}
use mathlib.Core.List.{List, [], ◌∷◌, ◌++◌}
use native.Mathlib.Omega.{arith}
use tiny_tcp_over_tun.Common.Lists.{length, get_or, take, drop}

-- `f i`, `f (i + 1)` and so on, `n` values.
abbrev pub slice {ℓ} : {A : Type ℓ} → (ℕ → A) → ℕ → ℕ → List A
slice f i zero = []
slice f i (suc n) = f i ∷ slice f (suc i) n

module _ {ℓ} {A : Type ℓ} where
  pub length-slice : (f : ℕ → A) (i n : ℕ) → length (slice f i n) ≡ n
  length-slice f i zero = refl
  length-slice f i (suc n) = ap suc (length-slice f (suc i) n)

  pub slice-append : (f : ℕ → A) (i m n : ℕ) → slice f i m ++ slice f (i + m) n ≡ slice f i (m + n)
  slice-append f i zero n =
      let e : i + 0 ≡ i = omega arith in let d : 0 + n ≡ n = omega arith in rw (e, d)
  slice-append f i (suc m) n =
      let e : i + suc m ≡ suc i + m = omega arith in
      let d : suc m + n ≡ suc (m + n) = omega arith in
      rw (e, d) (ap (◌∷◌ (f i)) (slice-append f (suc i) m n))

  pub slice-ext :
      (f g : ℕ → A) (i j n : ℕ)
      → ((k : ℕ) → k < n → f (i + k) ≡ g (j + k))
      → slice f i n ≡ slice g j n
  slice-ext f g i j zero h = refl
  slice-ext f g i j (suc n) h =
      let ei : i + 0 ≡ i = omega arith in
      let ej : j + 0 ≡ j = omega arith in
      ap₂ ◌∷◌ (rw (ei, ej) at (h 0 (omega arith))) (
        slice-ext f g (suc i) (suc j) n (λ k lt.
          let si : i + suc k ≡ suc i + k = omega arith in
          let sj : j + suc k ≡ suc j + k = omega arith in rw (si, sj) at (h (suc k) (omega arith))))

  pub drop-slice : (f : ℕ → A) (i n k : ℕ) → drop k (slice f i n) ≡ slice f (i + k) (n - k)
  drop-slice f i n zero =
      let e : i + 0 ≡ i = omega arith in let d : n - 0 ≡ n = omega arith in rw (e, d)
  drop-slice f i zero (suc k) = let d : 0 - suc k ≡ 0 = omega arith in rw d
  drop-slice f i (suc n) (suc k) =
      let e : i + suc k ≡ suc i + k = omega arith in
      let d : suc n - suc k ≡ n - k = omega arith in rw (e, d) (drop-slice f (suc i) n k)

  pub take-slice : (f : ℕ → A) (i n k : ℕ) → k ≤ n → take k (slice f i n) ≡ slice f i k
  take-slice f i n zero h = refl
  take-slice f i zero (suc k) h = absurd (omega arith)
  take-slice f i (suc n) (suc k) h = ap (◌∷◌ (f i)) (take-slice f (suc i) n k (omega arith))

  pub slice-get_or :
      (xs : List A) (d : A) (p n : ℕ)
      → p + n ≤ length xs
      → take n (drop p xs) ≡ slice (λ k. get_or xs k d) p n
  slice-get_or xs d zero zero h = refl
  slice-get_or [] d zero (suc n) h = absurd (omega arith)
  slice-get_or (x ∷ xs) d zero (suc n) h = ap (◌∷◌ x) (
      slice-get_or xs d zero n (omega arith)
      ∙ slice-ext (λ k. get_or xs k d) (λ k. get_or (x ∷ xs) k d) 0 1 n
          (λ k lt. let e : 1 + k ≡ suc (0 + k) = omega arith in rw e))
  slice-get_or [] d (suc p) zero h = refl
  slice-get_or [] d (suc p) (suc n) h = absurd (omega arith)
  slice-get_or (x ∷ xs) d (suc p) n h =
      slice-get_or xs d p n (omega arith)
      ∙ slice-ext (λ k. get_or xs k d) (λ k. get_or (x ∷ xs) k d) p (suc p) n
          (λ k lt. let e : suc p + k ≡ suc (p + k) = omega arith in rw e)
