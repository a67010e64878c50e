-- ===== src/Tests/Formats.antt =====
-- The theorem on the Internet checksum (util/checksum.hh) at a concrete input.
use tiny_tcp_over_tun.Common.{◌/◌, ◌%◌, ◌^◌, ◌≡◌, [], ◌∷◌, false, arith, refl}
use tiny_tcp_over_tun.Checksum.{InternetChecksum, add, value}
use tiny_tcp_over_tun.Checksum.Verify.{value-add}

abbrev counted : InternetChecksum
counted = record { sum = 190000; parity = false }

value-add_example : value (add (value counted / 2 ^ 8 ∷ value counted % 2 ^ 8 ∷ []) counted) ≡ 0
value-add_example = value-add counted refl (omega arith)

-- 190000 folds to 58930.
value_counted : value counted ≡ 6605
unfolding value
value_counted = refl
