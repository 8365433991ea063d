-- ===== src/Prelude/Bits.antt =====
-- Masks: `x & (2^k - 1)` is `x` modulo `2^k`. The ring indices of the program are kept in range so.
use Prim.Native.Nat.{
  ℕ, zero, suc, ◌+◌, ◌-◌, ◌*◌, ◌/◌, ◌%◌, ◌^◌, ◌≤◌, ◌<◌, min, bit_and, digits, bit_and-bitwise,
}
use mathlib.Core.Path.{◌≡◌, sym, ap, ◌∙◌}
use native.Mathlib.Nat.{pow-suc, one-le-pow, mod-eq_of_lt}
use native.Mathlib.Omega.{arith}

zero_mod : (k : ℕ) → 0 ≡ 0 % 2 ^ k
zero_mod k = sym (mod-eq_of_lt (one-le-pow k 2 (omega arith)))

-- The lowest binary digit apart.
mod_split : (x m : ℕ) → 0 < m → x / 2 % m * 2 + x % 2 ≡ x % (m * 2)
mod_split x m pos = grind arith

-- By the digits of the number, and as many digits of the mask as there are.
digits-mask : (k n x : ℕ) → x ≤ n → digits (λ y. 0) min n x (2 ^ k - 1) ≡ x % 2 ^ k
digits-mask k zero zero le = zero_mod k
digits-mask k zero (suc x) le = absurd (omega arith)
digits-mask k (suc n) zero le = zero_mod k
digits-mask zero (suc n) (suc x) le = omega (arith, digits-mask zero n (suc x / 2) (omega arith))
digits-mask (suc k) (suc n) (suc x) le =
    let whole = pow-suc 2 k in
    let pos = one-le-pow k 2 (omega arith) in
    let half : (2 ^ suc k - 1) / 2 ≡ 2 ^ k - 1 = omega (arith, whole, pos) in
    let odd : (2 ^ suc k - 1) % 2 ≡ 1 = omega (arith, whole, pos) in
    let rest =
      ap (digits (λ y. 0) min n (suc x / 2)) half ∙ digits-mask k n (suc x / 2) (omega arith) in
    omega (arith, rest, odd, mod_split (suc x) (2 ^ k) pos, ap (λ m. suc x % m) whole)

bit_and_mask : (k x : ℕ) → bit_and x (2 ^ k - 1) ≡ x % 2 ^ k
bit_and_mask k x = bit_and-bitwise x (2 ^ k - 1) ∙ digits-mask k x x (omega arith)

-- `kWsQueueSize - 1` as the mask.
pub bit_and_mask12 : (x : ℕ) → bit_and x 4095 ≡ x % 4096
bit_and_mask12 x = bit_and_mask 12 x
