-- ===== src/Common/Maps.antt =====
-- Maps with numbers as keys, for `std::unordered_map`.
use Prim.Native.Nat.{ℕ}
use mathlib.Core.Path.{◌≡◌, refl, ap, subst}
use mathlib.Core.Logic.{◌≢◌, inl, inr}
use mathlib.Core.Bool.{false}
use mathlib.Core.Option.{Option, none, some}
use mathlib.Core.List.{List, [], ◌∷◌}
use tiny_tcp_over_tun.Common.Tests.{◌==◌, if◌then◌else◌, eq_cases, ==_refl, ne→==_false}

abbrev pub Map {ℓ} : Type ℓ → Type ℓ
Map V = List (ℕ × V)

-- `count` and `at`
unfoldable pub lookup {ℓ} : {V : Type ℓ} → ℕ → Map V → Option V
lookup k [] = none
lookup k ((j, v) ∷ m) = let rest = lookup k m in if j == k then some v else rest

unfoldable pub erase {ℓ} : {V : Type ℓ} → ℕ → Map V → Map V
erase k [] = []
erase k ((j, v) ∷ m) = let rest = erase k m in if j == k then rest else (j, v) ∷ rest

-- `m[k] = v`
unfoldable pub put {ℓ} : {V : Type ℓ} → ℕ → V → Map V → Map V
unfolding erase
put k v m = (k, v) ∷ erase k m

module _ {ℓ} {V : Type ℓ} where
  pub some_ne_none : (v : V) → some v ≢ none
  some_ne_none v e = subst (λ o. elim o as (λ _. Type 0) [ none ↦ ⊥ | some x ↦ Unit {0} ]) e tt

  pub some_injective : {x y : V} → some x ≡ some y → x ≡ y
  some_injective {x} e = ap (λ o. elim o as (λ _. V) [ none ↦ x | some z ↦ z ]) e

  pub lookup-put : (k : ℕ) (v : V) (m : Map V) → lookup k (put k v m) ≡ some v
  unfolding lookup put
  lookup-put k v m = rw (==_refl k) refl

  pub lookup-erase : (k : ℕ) (m : Map V) → lookup k (erase k m) ≡ none
  unfolding lookup erase
  lookup-erase k [] = refl
  lookup-erase k ((j, v) ∷ m) = elim (eq_cases j k) [
    | inl e ↦ rw (e, ==_refl k) (lookup-erase k m)
    | inr ne ↦ rw (ne→==_false j k ne) (rw (ne→==_false j k ne) (lookup-erase k m))
  ]

  pub lookup-erase_other : (k j : ℕ) (m : Map V) → j ≢ k → lookup k (erase j m) ≡ lookup k m
  unfolding lookup erase
  lookup-erase_other k j [] d = refl
  lookup-erase_other k j ((i, v) ∷ m) d = elim (eq_cases i j) [
    | inl e ↦
        let other : (j == k) ≡ false = ne→==_false j k d in
        rw (e, ==_refl j) (rw other (lookup-erase_other k j m d))
    | inr ne ↦ rw (ne→==_false i j ne) (elim (eq_cases i k) [
      | inl f ↦ rw (f, ==_refl k) refl
      | inr nf ↦ rw (ne→==_false i k nf) (lookup-erase_other k j m d)
    ])
  ]

  pub lookup-put_other : (k j : ℕ) (v : V) (m : Map V) → j ≢ k → lookup k (put j v m) ≡ lookup k m
  unfolding lookup put
  lookup-put_other k j v m d = rw (ne→==_false j k d) (lookup-erase_other k j m d)
