-- ===== src/Control/Frame/Bits.antt =====
-- The bits of a frame's bytes: masks, lengths and their bytes, checked as tables over a byte
-- (client/app_core/crates/control-ws-client/src/lib.rs).
use Prim.Native.Nat.{bit_and, bit_or, bit_xor}
use slan.Prelude.{
  ℕ, zero, suc, ◌^◌, ◌<◌, true, ◌&&◌, ◌≡◌, refl, ap, length, eqb, inl, inr, ◌⊎◌, arith, get_elem?,
  unwrap_or,
}
use slan.Prelude.Bounded.{holds_up_to, holds_at}
use slan.Control.Frame.{mask_key, be_bytes, from_be_bytes}

eqb_sound : (a b : ℕ) → eqb a b ≡ true → a ≡ b
eqb_sound a b h = ground arith

short_table :
    holds_up_to
      (λ x. eqb (bit_and (bit_or 0x80 x) 0x7f) x && eqb (bit_and (bit_or 0x80 x) 0x80) 0x80)
      128
    ≡ true
unfolding holds_up_to
short_table = refl

xor_table :
    holds_up_to
      (λ x.
        eqb (bit_xor (bit_xor x 0x12) 0x12) x
        && eqb (bit_xor (bit_xor x 0x34) 0x34) x
        && eqb (bit_xor (bit_xor x 0x56) 0x56) x
        && eqb (bit_xor (bit_xor x 0x78) 0x78) x)
      256
    ≡ true
unfolding holds_up_to
xor_table = refl

-- the second byte of a frame with a short length gives the length and the mask bit
pub short_length :
    (n : ℕ) → n < 128 → (bit_and (bit_or 0x80 n) 0x7f ≡ n) × (bit_and (bit_or 0x80 n) 0x80 ≡ 0x80)
short_length n h = ground (arith, holds_at _ 128 n h short_table)

below_four : (n : ℕ) → n < 4 → (n ≡ 0) ⊎ ((n ≡ 1) ⊎ ((n ≡ 2) ⊎ (n ≡ 3)))
below_four n h = ground arith

pub masked_twice :
    (b i : ℕ)
    → b < 256
    → i < 4
    → let key = unwrap_or (get_elem? mask_key i) 0 in bit_xor (bit_xor b key) key ≡ b
masked_twice b i h lt = elim (below_four i lt) [
  | inl zero_th ↦ rw zero_th (ground (arith, holds_at _ 256 b h xor_table))
  | inr (inl first) ↦ rw first (ground (arith, holds_at _ 256 b h xor_table))
  | inr (inr (inl second)) ↦ rw second (ground (arith, holds_at _ 256 b h xor_table))
  | inr (inr (inr third)) ↦ rw third (ground (arith, holds_at _ 256 b h xor_table))
]

pub length-be_bytes : (k n : ℕ) → length (be_bytes k n) ≡ k
unfolding be_bytes
length-be_bytes zero n = refl
length-be_bytes (suc k) n = ap suc (length-be_bytes k n)

pub from_be_bytes-two : (n : ℕ) → n < 2 ^ 16 → from_be_bytes 0 (be_bytes 2 n) ≡ n
unfolding be_bytes from_be_bytes
from_be_bytes-two n h = omega arith

pub from_be_bytes-eight : (n : ℕ) → n < 2 ^ 64 → from_be_bytes 0 (be_bytes 8 n) ≡ n
unfolding be_bytes from_be_bytes
from_be_bytes-eight n h = omega arith
