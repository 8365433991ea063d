-- ===== src/HugeAlloc/Bsr.antt =====
-- A `bsrl` that runs: what the processor documents of it can hold.
use native.Mathlib.Nat.{pow-suc}
use axio_emulator.Prelude.{
  ℕ, zero, suc, ◌/◌, ◌^◌, ◌≤◌, ◌<◌, ltb, if◌then◌else◌, Bool-cases, inl, inr, arith,
}
use axio_emulator.HugeAlloc.Classes.{BsrLaw}

-- The index of the highest set bit, for numbers below 2 to the `fuel + 1`.
unfoldable pub high_bit : ℕ → ℕ → ℕ
high_bit zero x = 0
high_bit (suc fuel) x = let rest = high_bit fuel (x / 2) in if ltb x 2 then 0 else suc rest

abbrev pub bsr : ℕ → ℕ
bsr = high_bit 31

high_bit-bounds :
    (fuel x : ℕ)
    → 0 < x
    → x < 2 ^ suc fuel
    → (2 ^ high_bit fuel x ≤ x) × (x < 2 ^ suc (high_bit fuel x))
unfolding high_bit
high_bit-bounds zero x lo hi = (omega arith, hi)
high_bit-bounds (suc fuel) x lo hi = elim (Bool-cases (ltb x 2)) [
  | inl small ↦ rw small (ground arith, ground arith)
  | inr big ↦
      let two : 2 ≤ x = ground arith in
      let (low, high) =
        high_bit-bounds fuel (x / 2) (omega arith) (omega (arith, pow-suc 2 (suc fuel))) in
      let r = high_bit fuel (x / 2) in
      rw big (omega (arith, pow-suc 2 r, low), omega (arith, pow-suc 2 (suc r), high))
]

pub bsr-BsrLaw : BsrLaw bsr
bsr-BsrLaw = record {
  low = λ x lo hi. (high_bit-bounds 31 x lo hi).0;
  high = λ x lo hi. (high_bit-bounds 31 x lo hi).1;
}
