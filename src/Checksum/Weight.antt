-- ===== src/Checksum/Weight.antt =====
-- What bytes add to the sum of a checksum (util/checksum.hh), as long as the sum does not overflow.
use tiny_tcp_over_tun.Common.{
  ℕ, ◌+◌, ◌*◌, ◌%◌, ◌^◌, ◌≤◌, ◌<◌, ◌≡◌, List, [], ◌∷◌, ◌++◌, length, Bool, not, arith, refl, sym,
  ◌∙◌, if◌then◌else◌, AllBytes,
}
use tiny_tcp_over_tun.Wrap32.{u32}
use tiny_tcp_over_tun.Checksum.{InternetChecksum, add_byte, add, add_all}
use tiny_tcp_over_tun.Parser.Content.{concat}

-- What a byte adds: a high byte counts 256 times.
abbrev pub byte_weight : Bool → ℕ → ℕ
byte_weight parity i = if not parity then (i * 2 ^ 8) % 2 ^ 16 else i

abbrev pub weight : Bool → List ℕ → ℕ
weight parity [] = 0
weight parity (i ∷ bytes) = byte_weight parity i + weight (not parity) bytes

abbrev pub parity_after : Bool → List ℕ → Bool
parity_after parity [] = parity
parity_after parity (i ∷ bytes) = parity_after (not parity) bytes

pub weight-append :
    (parity : Bool) (xs ys : List ℕ)
    → weight parity (xs ++ ys) ≡ weight parity xs + weight (parity_after parity xs) ys
weight-append parity [] ys = omega arith
weight-append parity (x ∷ xs) ys = omega (arith, weight-append (not parity) xs ys)

byte_bound : (parity : Bool) (i : ℕ) → i < 2 ^ 8 → byte_weight parity i ≤ 65280
byte_bound parity i h = ground arith

pub weight_bound :
    (parity : Bool) (bytes : List ℕ) → AllBytes bytes → weight parity bytes ≤ 65280 * length bytes
weight_bound parity [] h = omega arith
weight_bound parity (i ∷ bytes) (hi, h) =
    omega (arith, byte_bound parity i hi, weight_bound (not parity) bytes h)

pub sum-weight :
    (bytes : List ℕ) (c : InternetChecksum)
    → c.sum + weight c.parity bytes < u32
    → (add bytes c).sum ≡ c.sum + weight c.parity bytes
unfolding add add_byte
sum-weight [] c h = omega arith
sum-weight (i ∷ bytes) c h = sum-weight bytes (add_byte i c) (omega arith) ∙ omega arith

add-append : (xs ys : List ℕ) (c : InternetChecksum) → add (xs ++ ys) c ≡ add ys (add xs c)
unfolding add
add-append [] ys c = refl
add-append (x ∷ xs) ys c = add-append xs ys (add_byte x c)

-- Several strings are summed as the string that they make.
pub add_all-concat : (bs : List (List ℕ)) (c : InternetChecksum) → add_all bs c ≡ add (concat bs) c
unfolding add_all add
add_all-concat [] c = refl
add_all-concat (b ∷ bs) c = add_all-concat bs (add b c) ∙ sym (add-append b (concat bs) c)
