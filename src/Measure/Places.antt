-- ===== src/Measure/Places.antt =====
-- What the place of a thread says, and how many threads are in an iteration's second half.
use native.Mathlib.Decide.{ℕ_discrete}
use axio_emulator.Prelude.{
  ℕ, zero, suc, ◌+◌, ◌*◌, ◌≤◌, ◌<◌, ◌≡◌, ◌≢◌, refl, Bool, true, false, Bool-cases, inl, inr, ◌==◌,
  if◌then◌else◌, arith,
}
use axio_emulator.Rules.{update}
use axio_emulator.Measure.{
  Place, begin, at_start, running, updated, at_end, after_end, Thread, entered_at,
}

-- How often a thread has called `update_stats`.
abbrev pub updates_at : Place → ℕ → ℕ
updates_at begin k = k
updates_at at_start k = k
updates_at running k = k
updates_at updated k = k + 1
updates_at at_end k = k + 1
updates_at after_end k = k + 1

abbrev pub update_num : Thread → ℕ
update_num t = updates_at t.place t.iteration

-- The returns from the barrier.
abbrev pub left_at : Place → ℕ → ℕ
left_at begin k = 2 * k
left_at at_start k = 2 * k
left_at running k = 2 * k + 1
left_at updated k = 2 * k + 1
left_at at_end k = 2 * k + 1
left_at after_end k = 2 * k + 2

abbrev pub left : Thread → ℕ
left t = left_at t.place t.iteration

abbrev pub in_report : Place → Bool
in_report begin = false
in_report at_start = false
in_report running = false
in_report updated = true
in_report at_end = true
in_report after_end = true

pub entered_le : (p : Place) (k : ℕ) → entered_at p k ≤ 2 * updates_at p k + 1
entered_le begin k = omega arith
entered_le at_start k = omega arith
entered_le running k = omega arith
entered_le updated k = omega arith
entered_le at_end k = omega arith
entered_le after_end k = omega arith

pub updates_le : (p : Place) (k : ℕ) → 2 * updates_at p k ≤ entered_at p k + 1
updates_le begin k = omega arith
updates_le at_start k = omega arith
updates_le running k = omega arith
updates_le updated k = omega arith
updates_le at_end k = omega arith
updates_le after_end k = omega arith

pub report_le :
    (p : Place) (k : ℕ)
    → in_report p ≡ true
    → (updates_at p k ≡ k + 1) × (entered_at p k ≤ 2 * updates_at p k)
report_le begin k e = cc
report_le at_start k e = cc
report_le running k e = cc
report_le updated k e = omega arith
report_le at_end k e = omega arith
report_le after_end k e = omega arith

-- The threads of the first `n` that have updated `r` times.
pub num : ℕ → ℕ → (ℕ → Thread) → ℕ
num zero r ts = 0
num (suc n) r ts = num n r ts + (if update_num (ts n) == r then 1 else 0)

pub num_le : (n r : ℕ) (ts : ℕ → Thread) → num n r ts ≤ n
unfolding num
num_le zero r ts = omega arith
num_le (suc n) r ts = ground (arith, num_le n r ts)

pub num-ext :
    (n r : ℕ) (ts us : ℕ → Thread)
    → ((j : ℕ) → j < n → update_num (us j) ≡ update_num (ts j))
    → num n r us ≡ num n r ts
unfolding num
num-ext zero r ts us same = refl
num-ext (suc n) r ts us same =
    let first = num-ext n r ts us (λ j lt. same j (omega arith)) in
    rw (first, same n (omega arith)) refl

pub num-one :
    (n r i : ℕ) (ts us : ℕ → Thread)
    → i < n
    → update_num (us i) ≡ r
    → update_num (ts i) ≢ r
    → ((j : ℕ) → j < n → j ≢ i → update_num (us j) ≡ update_num (ts j))
    → num n r us ≡ num n r ts + 1
unfolding num
num-one zero r i ts us lt now before same = absurd (omega arith)
num-one (suc n) r i ts us lt now before same = elim (ℕ_discrete n i) [
  | yes e ↦
      let first = num-ext n r ts us (λ j lj. same j (omega arith) (λ q. omega (arith, q, e))) in
      let now' : update_num (us n) ≡ r = rw e now in
      let before' : update_num (ts n) ≢ r = rw e before in ground (arith, first)
  | no ne ↦
      let first =
        num-one n r i ts us (omega (arith, ne)) now before (λ j lj. same j (omega arith)) in
      rw (first, same n (omega arith) ne) (omega arith)
]

pub num_none :
    (n r : ℕ) (ts : ℕ → Thread) → ((j : ℕ) → j < n → update_num (ts j) ≢ r) → num n r ts ≡ 0
unfolding num
num_none zero r ts all = refl
num_none (suc n) r ts all =
    let one = all n (omega arith) in ground (arith, num_none n r ts (λ j lt. all j (omega arith)))

pub num_all :
    (n r : ℕ) (ts : ℕ → Thread) → ((j : ℕ) → j < n → update_num (ts j) ≡ r) → num n r ts ≡ n
unfolding num
num_all zero r ts all = refl
num_all (suc n) r ts all =
    let one = all n (omega arith) in ground (arith, num_all n r ts (λ j lt. all j (omega arith)))

pub all_num : (n r : ℕ) (ts : ℕ → Thread) → num n r ts ≡ n → (j : ℕ) → j < n → update_num (ts j) ≡ r
unfolding num
all_num zero r ts e j lt = absurd (omega arith)
all_num (suc n) r ts e j lt = elim (ℕ_discrete j n) [
  | yes same ↦ rw same (ground (arith, num_le n r ts))
  | no ne ↦ all_num n r ts (ground (arith, num_le n r ts)) j (omega (arith, ne))
]

-- What holds of a thread's new state and of the other threads holds of all.
pub update-all {ℓ} :
    (P : ℕ → Thread → Type ℓ) (n i : ℕ) (ts : ℕ → Thread) (t : Thread)
    → P i t
    → ((j : ℕ) → j < n → j ≢ i → P j (ts j))
    → (j : ℕ) → j < n
    → P j (update ts i t j)
update-all P n i ts t it others j lj = elim (Bool-cases (j == i)) [
  | inl e ↦ let same : j ≡ i = ground arith in rw e (rw same it)
  | inr e ↦ let ne : j ≢ i = ground arith in rw e (others j lj ne)
]

pub update_self : (ts : ℕ → Thread) (i : ℕ) (t : Thread) → update ts i t i ≡ t
update_self ts i t = ground arith

pub update_ne : (ts : ℕ → Thread) (i j : ℕ) (t : Thread) → j ≢ i → update ts i t j ≡ ts j
update_ne ts i j t ne = ground arith
