-- ===== src/Wrap32.antt =====
-- src/wrapping_integers.hh and src/wrapping_integers.cc: 32-bit sequence numbers that wrap round,
-- and the 64-bit absolute sequence numbers that they stand for.
pub mod Unwrap
use tiny_tcp_over_tun.Common.{
  ℕ, ◌+◌, ◌-◌, ◌*◌, ◌/◌, ◌%◌, ◌^◌, ◌&&◌, ltb, add64, if◌then◌else◌, Bool, ◌==◌,
}

abbrev pub u32 : ℕ
u32 = 2 ^ 32

-- `raw_value_`, a `uint32_t`.
pub record Wrap32 : Type 0 where
  pub raw_value : ℕ

-- `operator+( uint32_t )`
unfoldable pub plus : Wrap32 → ℕ → Wrap32
plus w n = record { raw_value = (w.raw_value + n) % u32 }

-- `operator==`
unfoldable pub equal : Wrap32 → Wrap32 → Bool
equal v w = v.raw_value == w.raw_value

-- The cast to `uint32_t` keeps the low 32 bits.
unfoldable pub wrap : ℕ → Wrap32 → Wrap32
unfolding plus
wrap n zero_point = plus zero_point (n % u32)

-- The end of `unwrap`, on the first candidate.
nearest : ℕ → ℕ → ℕ
nearest candidate checkpoint =
    if ltb checkpoint candidate && ltb (2 ^ 31) (candidate - checkpoint) && ltb u32 candidate
    then candidate - u32
    else if ltb candidate checkpoint && ltb (2 ^ 31) (checkpoint - candidate)
    then add64 candidate u32
    else candidate

-- `checkpoint & 0xFFFFFFFF00000000` clears the low 32 bits of a `uint64_t`.
unfoldable pub unwrap : Wrap32 → Wrap32 → ℕ → ℕ
unfolding nearest
unwrap w zero_point checkpoint =
    nearest (add64 ((w.raw_value + u32 - zero_point.raw_value) % u32) (checkpoint / u32 * u32))
      checkpoint
