-- ===== src/Stats/Extremes.antt =====
-- The durations of a phase: what the sum, the maximum and the minimum say of all that were added.
use axio_emulator.Prelude.{
  ℕ, ◌+◌, ◌%◌, ◌^◌, ◌≤◌, ◌≡◌, ◌≢◌, refl, ap, List, [], ◌∷◌, length, count, ◌==◌, Bool-cases, inl,
  inr, arith,
}
use axio_emulator.Stats.{NetStats, init, no_durations, add_duration, app_tx_duration}

-- The durations of a list, recorded one after the other.
unfoldable pub record_all : List ℕ → NetStats → NetStats
record_all [] s = s
record_all (t ∷ ts) s = record_all ts (app_tx_duration t s)

abbrev pub sum : List ℕ → ℕ
sum [] = 0
sum (t ∷ ts) = t + sum ts

-- From counters of 64 bits, the list makes these.
record Recorded (ts : List ℕ) (s out : NetStats) : Type 0 where
  times : out.app_tx_invoke_times % 2 ^ 64 ≡ (s.app_tx_invoke_times + length ts) % 2 ^ 64
  total : out.app_tx.avg_duration % 2 ^ 64 ≡ (s.app_tx.avg_duration + sum ts) % 2 ^ 64
  max_grows : s.app_tx.max_duration ≤ out.app_tx.max_duration
  min_falls : out.app_tx.min_duration ≤ s.app_tx.min_duration
  within : (t : ℕ) → count t ts ≢ 0 → (out.app_tx.min_duration ≤ t) × (t ≤ out.app_tx.max_duration)

record_all-Recorded : (ts : List ℕ) (s : NetStats) → Recorded ts s (record_all ts s)
unfolding record_all app_tx_duration add_duration
record_all-Recorded [] s = record {
  times =
      ap (λ n. n % 2 ^ 64) {x = s.app_tx_invoke_times} {y = s.app_tx_invoke_times + 0}
        (omega arith);
  total =
      ap (λ n. n % 2 ^ 64) {x = s.app_tx.avg_duration} {y = s.app_tx.avg_duration + 0}
        (omega arith);
  max_grows = omega arith;
  min_falls = omega arith;
  within = λ t ne. absurd (ne refl);
}
record_all-Recorded (u ∷ us) s =
    let r = record_all-Recorded us (app_tx_duration u s) in
    record {
      times = omega (arith, r.times);
      total = omega (arith, r.total);
      max_grows = ground (arith, r.max_grows);
      min_falls = ground (arith, r.min_falls);
      within = λ t ne. elim (Bool-cases (u == t)) [
        | inl e ↦ (ground (arith, r.min_falls, e), ground (arith, r.max_grows, e))
        | inr e ↦ r.within t (ground (arith, ne, e))
      ];
    }

-- From the start of a measurement, the counters say of the durations recorded: how many they are,
-- and their sum, each modulo 2^64; and each of them is between the minimum and the maximum.
pub record_all-init :
    (ts : List ℕ)
    → let out = record_all ts init in
      (out.app_tx_invoke_times % 2 ^ 64 ≡ length ts % 2 ^ 64)
      × (out.app_tx.avg_duration % 2 ^ 64 ≡ sum ts % 2 ^ 64)
      × ((t : ℕ) → count t ts ≢ 0 → (out.app_tx.min_duration ≤ t) × (t ≤ out.app_tx.max_duration))
unfolding init no_durations
record_all-init ts =
    let r = record_all-Recorded ts init in
    (omega (arith, r.times), omega (arith, r.total), r.within)
