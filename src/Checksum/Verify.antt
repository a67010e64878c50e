-- ===== src/Checksum/Verify.antt =====
-- What the checksum of util/checksum.hh guarantees to a receiver.
use tiny_tcp_over_tun.Common.{ℕ, ◌+◌, ◌-◌, ◌/◌, ◌%◌, ◌^◌, ◌≤◌, ◌<◌, ◌≡◌, [], ◌∷◌, false, arith, ◌∙◌}
use tiny_tcp_over_tun.Wrap32.{u32}
use tiny_tcp_over_tun.Checksum.{InternetChecksum, add_byte, add, fold, value}

-- The folding of a 32-bit sum ends below 2^16 with the fuel that `value` gives it, keeps the sum
-- modulo 65535, keeps a positive sum positive, and does not exceed the sum.
pub fold_bounds :
    (sum : ℕ)
    → sum < u32
    → (fold 3 sum ≤ 65535)
      × (fold 3 sum % 65535 ≡ sum % 65535)
      × (0 < sum → 0 < fold 3 sum)
      × (fold 3 sum ≤ sum)
unfolding fold
fold_bounds sum h = (ground arith, ground arith, λ pos. ground arith, ground arith)

value_is : (c : InternetChecksum) → c.sum < u32 → value c ≡ 65535 - fold 3 c.sum
unfolding value
value_is c h = let (low, same, pos, less) = fold_bounds c.sum h in omega (arith, low)

-- The two bytes of a 16-bit number, the high one first, add the number.
sum-add :
    (v : ℕ) (c : InternetChecksum)
    → c.parity ≡ false
    → v ≤ 65535
    → c.sum + 65535 < u32
    → (add (v / 2 ^ 8 ∷ v % 2 ^ 8 ∷ []) c).sum ≡ c.sum + v
unfolding add add_byte
sum-add v c even hv h = ground arith

-- A sum to which the value of another one has been added has the value zero.
pub value-of_sum :
    (c after : InternetChecksum)
    → c.sum + 65535 < u32
    → after.sum ≡ c.sum + value c
    → value after ≡ 0
value-of_sum c after h total =
    value_is after (omega (arith, total, small))
    ∙ omega (arith, low', same', pos' (omega (arith, total, v, low, less)), total, v, low, same)
  where
    v : value c ≡ 65535 - fold 3 c.sum
    v = value_is c (omega arith)

    small : value c ≤ 65535
    small = omega (arith, v)

    low : fold 3 c.sum ≤ 65535
    low = (fold_bounds c.sum (omega arith)).0

    same : fold 3 c.sum % 65535 ≡ c.sum % 65535
    same = (fold_bounds c.sum (omega arith)).1

    less : fold 3 c.sum ≤ c.sum
    less = (fold_bounds c.sum (omega arith)).3

    low' : fold 3 after.sum ≤ 65535
    low' = (fold_bounds after.sum (omega (arith, total, small))).0

    same' : fold 3 after.sum % 65535 ≡ after.sum % 65535
    same' = (fold_bounds after.sum (omega (arith, total, small))).1

    pos' : 0 < after.sum → 0 < fold 3 after.sum
    pos' = (fold_bounds after.sum (omega (arith, total, small))).2

-- The value is a number of 16 bits.
pub value_range : (c : InternetChecksum) → value c < 2 ^ 16
unfolding value
value_range c = omega arith

-- A receiver that adds the two bytes of the checksum to the same sum gets zero, whatever was added
-- before, as long as the 32-bit sum does not overflow and an even number of bytes has been added.
pub value-add :
    (c : InternetChecksum)
    → c.parity ≡ false
    → c.sum + 65535 < u32
    → value (add (value c / 2 ^ 8 ∷ value c % 2 ^ 8 ∷ []) c) ≡ 0
value-add c even h =
    let small : value c ≤ 65535 = omega (arith, value_range c) in
    value-of_sum c (add (value c / 2 ^ 8 ∷ value c % 2 ^ 8 ∷ []) c) h
      (sum-add (value c) c even small h)
