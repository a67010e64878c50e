-- ===== src/Router/Entries.antt =====
-- The entries on the path of an address in the trie of src/router.cc, and how `add_route` changes them.
use tiny_tcp_over_tun.Common.{
  ℕ, zero, suc, ◌≡◌, Bool, true, false, ◌&&◌, Option, none, some, ◌==◌, if◌then◌else◌, arith, refl,
  ap, ◌∙◌, not, ne→==_false,
}
use tiny_tcp_over_tun.Router.{
  Trie, null, node, bit, route_entry, child, set_child, set_entry, insert_from,
}

-- Whether two addresses have the same `n` bits from bit `i` on.
unfoldable pub same_bit : Bool → Bool → Bool
same_bit true b = b
same_bit false b = not b

unfoldable pub matches : ℕ → ℕ → ℕ → ℕ → Bool
unfolding same_bit
matches zero i a b = true
matches (suc n) i a b = same_bit (bit i a) (bit i b) && matches n (suc i) a b

suc-== : (n m : ℕ) → (suc n == suc m) ≡ (n == m)
suc-== n m = ground arith

module _ {R : Type 0} where
  -- The entry `n` bits below a node, on the path of an address.
  unfoldable pub entry_at : ℕ → ℕ → ℕ → Trie R → Option R
  entry_at zero i a t = route_entry t
  entry_at (suc n) i a t = entry_at n (suc i) a (child (bit i a) t)

  pub entry_at-null : (n i a : ℕ) → entry_at n i a null ≡ none
  unfolding entry_at route_entry child
  entry_at-null zero i a = refl
  entry_at-null (suc n) i a = entry_at-null n (suc i) a

  pub entry_at-new : (n i a : ℕ) → entry_at n i a (node none null null) ≡ none
  unfolding entry_at route_entry child
  entry_at-new zero i a = refl
  entry_at-new (suc n) i a = below (bit i a)
    where
      below : (b : Bool) → entry_at n (suc i) a (child b (node none null null)) ≡ none
      below true = entry_at-null n (suc i) a
      below false = entry_at-null n (suc i) a

  entry-set_child : (b : Bool) (c t : Trie R) → route_entry (set_child b c t) ≡ route_entry t
  unfolding route_entry set_child
  entry-set_child false c null = refl
  entry-set_child true c null = refl
  entry-set_child false c (node r zeros ones) = refl
  entry-set_child true c (node r zeros ones) = refl

  entry-set_entry : (r : R) (t : Trie R) → route_entry (set_entry r t) ≡ some r
  unfolding route_entry set_entry
  entry-set_entry r null = refl
  entry-set_entry r (node old zeros ones) = refl

  child-set_entry : (b : Bool) (r : R) (t : Trie R) → child b (set_entry r t) ≡ child b t
  unfolding child set_entry
  child-set_entry false r null = refl
  child-set_entry true r null = refl
  child-set_entry false r (node old zeros ones) = refl
  child-set_entry true r (node old zeros ones) = refl

  child-set_child :
      (a b : Bool) (c t : Trie R)
      → child a (set_child b c t) ≡ (if same_bit a b then c else child a t)
  unfolding child set_child same_bit
  child-set_child true true c null = refl
  child-set_child true false c null = refl
  child-set_child false true c null = refl
  child-set_child false false c null = refl
  child-set_child true true c (node r zeros ones) = refl
  child-set_child true false c (node r zeros ones) = refl
  child-set_child false true c (node r zeros ones) = refl
  child-set_child false false c (node r zeros ones) = refl

  descend :
      (x y e m : Bool) (f : Trie R → Option R) (c : Trie R) (r : R) (t : Trie R)
      → f c ≡ (if e && m then some r else f (child y t))
      → f (child x (set_child y c t)) ≡ (if e && (same_bit x y && m) then some r else f (child x t))
  unfolding same_bit
  descend true true e m f c r t h = ap f (child-set_child true true c t) ∙ h
  descend false false e m f c r t h = ap f (child-set_child false false c t) ∙ h
  descend true false true m f c r t h = ap f (child-set_child true false c t)
  descend true false false m f c r t h = ap f (child-set_child true false c t)
  descend false true true m f c r t h = ap f (child-set_child false true c t)
  descend false true false m f c r t h = ap f (child-set_child false true c t)

  -- An insertion is seen by the addresses that match it, at its depth, and by no others.
  pub entry_at-insert_from :
      (n len i a p : ℕ) (r : R) (t : Trie R)
      → entry_at n i a (insert_from len i p r t)
        ≡ (if (n == len) && matches len i a p then some r else entry_at n i a t)
  unfolding entry_at insert_from matches
  entry_at-insert_from zero zero i a p r t = entry-set_entry r t
  entry_at-insert_from zero (suc len) i a p r t =
      rw (ne→==_false 0 (suc len) (λ e. absurd (omega arith)))
        (entry-set_child (bit i p) (insert_from len (suc i) p r (child (bit i p) t)) t)
  entry_at-insert_from (suc n) zero i a p r t =
      rw (ne→==_false (suc n) 0 (λ e. absurd (omega arith)))
        (ap (entry_at n (suc i) a) (child-set_entry (bit i a) r t))
  entry_at-insert_from (suc n) (suc len) i a p r t = rw (suc-== n len) (
      descend (bit i a) (bit i p) (n == len) (matches len (suc i) a p) (entry_at n (suc i) a)
        (insert_from len (suc i) p r (child (bit i p) t)) r t
        (entry_at-insert_from n len (suc i) a p r (child (bit i p) t)))
