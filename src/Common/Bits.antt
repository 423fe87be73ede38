-- ===== src/Common/Bits.antt =====
-- The bits of a byte. The laws are checked at every byte and every two bits.
use Prim.Native.Nat.{ℕ, zero, suc, ◌-◌, ◌^◌, ◌<◌, bit_and, bit_or}
use mathlib.Core.Path.{◌≡◌, refl}
use mathlib.Core.Bool.{Bool, true, false, ◌&&◌, ◌||◌, not}
use native.Mathlib.Omega.{arith}
use osn_mp.Common.Tests.{ltb, ◌==◌, if◌then◌else◌}

unfoldable pub has_bit : ℕ → ℕ → Bool
has_bit a k = not (bit_and a (2 ^ k) == 0)

-- `a |= 1 << k` and `a &= ~(1 << k)` on a byte
unfoldable pub with_bit : ℕ → ℕ → ℕ
with_bit a k = bit_or a (2 ^ k)

unfoldable pub without_bit : ℕ → ℕ → ℕ
without_bit a k = bit_and a (255 - 2 ^ k)

abbrev same : Bool → Bool → Bool
same true b = b
same false b = not b

-- Whether each of `k` values from 0 on passes the test.
holds_for : (ℕ → Bool) → ℕ → Bool
holds_for test zero = true
holds_for test (suc k) = if test k then holds_for test k else false

holds_for_lem : (test : ℕ → Bool) (k v : ℕ) → v < k → holds_for test k ≡ true → test v ≡ true
unfolding holds_for
holds_for_lem test zero v below e = absurd (omega arith)
holds_for_lem test (suc k) v below e = ground (arith, holds_for_lem test k v)

abbrev laws : ℕ → ℕ → ℕ → Bool
laws a k j =
    same (has_bit (with_bit a k) j) (k == j || has_bit a j)
    && same (has_bit (without_bit a k) j) (not (k == j) && has_bit a j)
    && ltb (with_bit a k) 256
    && ltb (without_bit a k) 256

abbrev at_bits : ℕ → ℕ → Bool
at_bits a k = holds_for (laws a k) 8

abbrev at_byte : ℕ → Bool
at_byte a = holds_for (at_bits a) 8

laws_table : holds_for at_byte 256 ≡ true
unfolding holds_for has_bit with_bit without_bit
laws_table = refl

module _ (a k j : ℕ) (ha : a < 256) (hk : k < 8) (hj : j < 8) where
  laws_hold : laws a k j ≡ true
  laws_hold =
      let byte : at_byte a ≡ true = holds_for_lem at_byte 256 a ha laws_table in
      let bits : at_bits a k ≡ true = holds_for_lem (at_bits a) 8 k hk byte in
      holds_for_lem (laws a k) 8 j hj bits

  pub has_bit-with_bit : has_bit (with_bit a k) j ≡ (k == j || has_bit a j)
  has_bit-with_bit = ground (arith, laws_hold)

  pub has_bit-without_bit : has_bit (without_bit a k) j ≡ (not (k == j) && has_bit a j)
  has_bit-without_bit = ground (arith, laws_hold)

  pub with_bit-lt : with_bit a k < 256
  with_bit-lt = ground (arith, laws_hold)

  pub without_bit-lt : without_bit a k < 256
  without_bit-lt = ground (arith, laws_hold)
