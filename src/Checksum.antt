-- ===== src/Checksum.antt =====
-- util/checksum.hh: the Internet checksum.
pub mod Verify
pub mod Weight
use tiny_tcp_over_tun.Common.{
  ℕ, zero, suc, ◌+◌, ◌-◌, ◌*◌, ◌/◌, ◌%◌, ◌^◌, List, [], ◌∷◌, Bool, true, false, not, ltb,
  if◌then◌else◌,
}
use tiny_tcp_over_tun.Wrap32.{u32}

pub record InternetChecksum : Type 0 where
  pub sum : ℕ
  pub parity : Bool

unfoldable pub init : ℕ → InternetChecksum
init sum = record { sum = sum; parity = false }

-- The body of the loop of `add`, for the byte `i`.
unfoldable pub add_byte : ℕ → InternetChecksum → InternetChecksum
add_byte i c =
    let val = if not c.parity then (i * 2 ^ 8) % 2 ^ 16 else i in
    record { sum = (c.sum + val) % u32; parity = not c.parity }

unfoldable pub add : List ℕ → InternetChecksum → InternetChecksum
unfolding add_byte
add [] c = c
add (i ∷ data') c = add data' (add_byte i c)

-- `add` for several strings
unfoldable pub add_all : List (List ℕ) → InternetChecksum → InternetChecksum
unfolding add
add_all [] c = c
add_all (x ∷ data') c = add_all data' (add x c)

-- The loop of `value`.
unfoldable pub fold : ℕ → ℕ → ℕ
fold zero ret = ret
fold (suc fuel) ret =
    let rest = fold fuel (ret / 2 ^ 16 + ret % 2 ^ 16) in if ltb 65535 ret then rest else ret

-- A sum of 32 bits needs at most two rounds. `~ret` keeps the low 16 bits of the complement.
unfoldable pub value : InternetChecksum → ℕ
unfolding fold
value c = (u32 - 1 - fold 3 c.sum) % 2 ^ 16
