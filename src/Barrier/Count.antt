-- ===== src/Barrier/Count.antt =====
-- Where the threads stand, and how many of them wait with the current generation.
use axio_emulator.Prelude.{
  ℕ, zero, suc, ◌+◌, ◌≤◌, ◌<◌, ◌≡◌, refl, sym, ap, ◌≢◌, List, [], ◌∷◌, length, get_or, set,
  get_or-set_self, get_or-set_ne, ◌==◌, if◌then◌else◌, arith,
}
use mathlib.Core.Path.{subst}
use native.Mathlib.Decide.{ℕ_discrete}
use axio_emulator.Barrier.{outside, waiting, Thread, new_thread}

-- Where a thread can be when the generation is `g`.
pub data Fits (g : ℕ) (t : Thread) : Type 0 where
  idle : t.place ≡ outside → t.entered ≡ g → t.left ≡ g → Fits g t
  present : t.place ≡ waiting g → t.entered ≡ g + 1 → t.left ≡ g → Fits g t
  late : (n : ℕ) → g ≡ n + 1 → t.place ≡ waiting n → t.entered ≡ g → t.left ≡ n → Fits g t

-- The threads that wait with the current generation.
pub is_present : ℕ → Thread → ℕ
is_present g t = if t.entered == g + 1 then 1 else 0

unfoldable pub present_num : ℕ → List Thread → ℕ
present_num g [] = 0
present_num g (t ∷ ts) = is_present g t + present_num g ts

pub present_num-set :
    (g : ℕ) (ts : List Thread) (i : ℕ) (t : Thread)
    → i < length ts
    → present_num g (set ts i t) + is_present g (get_or ts i new_thread)
      ≡ present_num g ts + is_present g t
unfolding present_num
present_num-set g [] i t lt = absurd (omega arith)
present_num-set g (x ∷ xs) zero t lt = omega arith
present_num-set g (x ∷ xs) (suc i) t lt = omega (arith, present_num-set g xs i t)

present_num_le : (g : ℕ) (ts : List Thread) → present_num g ts ≤ length ts
unfolding present_num is_present
present_num_le g [] = omega arith
present_num_le g (t ∷ ts) = ground (arith, present_num_le g ts)

absent_lt :
    (g : ℕ) (ts : List Thread) (i : ℕ)
    → i < length ts
    → is_present g (get_or ts i new_thread) ≡ 0
    → present_num g ts < length ts
unfolding present_num is_present
absent_lt g [] i li absent = absurd (omega arith)
absent_lt g (t ∷ ts) zero li absent = omega (arith, absent, present_num_le g ts)
absent_lt g (t ∷ ts) (suc i) li absent = ground (arith, absent_lt g ts i (omega arith) absent)

-- If one thread is not there and the others are counted as there, they all are.
pub all_present :
    (g : ℕ) (ts : List Thread) (i j : ℕ)
    → i < length ts
    → is_present g (get_or ts i new_thread) ≡ 0
    → present_num g ts + 1 ≡ length ts
    → j < length ts
    → j ≢ i
    → (get_or ts j new_thread).entered ≡ g + 1
unfolding present_num is_present
all_present g [] i j li absent num lj ne = absurd (omega arith)
all_present g (t ∷ ts) zero zero li absent num lj ne = absurd (ne refl)
all_present g (t ∷ ts) zero (suc j) li absent num lj ne =
    everyone g ts j (omega (arith, absent, num)) (omega arith)
  where
    everyone :
        (g : ℕ) (ts : List Thread) (j : ℕ)
        → present_num g ts ≡ length ts
        → j < length ts
        → (get_or ts j new_thread).entered ≡ g + 1
    everyone g [] j num lj = absurd (omega arith)
    everyone g (t ∷ ts) zero num lj = ground (arith, present_num_le g ts)
    everyone g (t ∷ ts) (suc j) num lj =
        everyone g ts j (ground (arith, present_num_le g ts)) (omega arith)
all_present g (t ∷ ts) (suc i) zero li absent num lj ne =
    ground (arith, absent_lt g ts i (omega arith) absent)
all_present g (t ∷ ts) (suc i) (suc j) li absent num lj ne =
    all_present g ts i j (omega arith) absent
      (ground (arith, absent_lt g ts i (omega arith) absent)) (omega arith) (λ e. ne (ap suc e))

pub none_present :
    (g : ℕ) (ts : List Thread)
    → ((j : ℕ) → j < length ts → (get_or ts j new_thread).entered ≡ g)
    → present_num g ts ≡ 0
unfolding present_num is_present
none_present g [] all = refl
none_present g (t ∷ ts) all =
    let first = all 0 (omega arith) in
    ground (arith, none_present g ts (λ j lt. all (suc j) (omega arith)))

-- What holds of a thread's new state and of the other threads holds of all.
pub set-all {ℓ} :
    (P : Thread → Type ℓ) (n i : ℕ) (ts : List Thread) (t : Thread)
    → length ts ≡ n
    → i < n
    → P t
    → ((j : ℕ) → j < n → j ≢ i → P (get_or ts j new_thread))
    → (j : ℕ) → j < n
    → P (get_or (set ts i t) j new_thread)
set-all P n i ts t len li it others j lj = elim (ℕ_discrete j i) [
  | yes same ↦
      subst (λ k. P (get_or (set ts i t) k new_thread)) (sym same)
        (subst P (sym (get_or-set_self ts i t new_thread (omega arith))) it)
  | no ne ↦ subst P (sym (get_or-set_ne ts i j t new_thread (λ e. ne (sym e)))) (others j lj ne)
]

pub is_present-yes : (g : ℕ) (t : Thread) → t.entered ≡ g + 1 → is_present g t ≡ 1
unfolding is_present
is_present-yes g t e = ground arith

pub is_present-no : (g : ℕ) (t : Thread) → t.entered ≡ g → is_present g t ≡ 0
unfolding is_present
is_present-no g t e = ground arith

pub is_idle : (g : ℕ) (t : Thread) → Fits g t → t.place ≡ outside → (t.entered ≡ g) × (t.left ≡ g)
is_idle g t (idle p e l) out = (e, l)
is_idle g t (present p e l) out = ground arith
is_idle g t (late n s p e l) out = ground arith

pub is_late :
    (g gen : ℕ) (t : Thread)
    → Fits g t
    → t.place ≡ waiting gen
    → gen ≢ g
    → (t.entered ≡ g) × (t.left + 1 ≡ g)
is_late g gen t (idle p e l) w ne = ground arith
is_late g gen t (present p e l) w ne = ground arith
is_late g gen t (late n s p e l) w ne = (e, omega arith)

pub present-late : (g : ℕ) (t : Thread) → Fits g t → t.entered ≡ g + 1 → Fits (g + 1) t
present-late g t (idle p e l) here_now = absurd (omega arith)
present-late g t (present p e l) here_now = late g refl p e l
present-late g t (late n s p e l) here_now = absurd (omega arith)
