-- ===== src/Measure/Live.antt =====
-- A measurement does not get stuck: the thread that has entered the barrier least often, or one that
-- it waits for, can go on.
use axio_emulator.Prelude.{
  ℕ, zero, suc, ◌+◌, ◌*◌, ◌^◌, ◌≤◌, ◌<◌, ◌≡◌, ◌⊎◌, refl, ap, ◌∙◌, Bool, Bool-cases, inl, inr, ◌==◌,
  ltb, length, arith,
}
use axio_emulator.Measure.{
  Place, begin, at_start, running, updated, at_end, after_end, System, move, update_stats,
  print_and_reset, may_end, entered_at, entered, Step, starts, runs, updates, ends, leaves, resets,
  Reach,
}
use axio_emulator.Measure.Places.{updates_at, update_num, num_all}
use axio_emulator.Measure.Inv.{Inv, Fits-at}
use axio_emulator.Measure.Once.{Reach-Inv, IsFinished}

abbrev Moves : ℕ → ℕ → System → Type 0
Moves n iterations s = (t : System) × Step n iterations s t

least : (n : ℕ) (f : ℕ → ℕ) → 0 < n → (i : ℕ) × (i < n) × ((j : ℕ) → j < n → f i ≤ f j)
least zero f pos = absurd (omega arith)
least (suc zero) f pos = (0, omega arith, λ j lj. let e : j ≡ 0 = omega arith in rw e (omega arith))
least (suc (suc n)) f pos =
    let (i, li, low) = least (suc n) f (omega arith) in
    elim (Bool-cases (ltb (f (suc n)) (f i))) [
      | inl lt ↦ (
        suc n,
        omega arith,
        λ j lj. elim (Bool-cases (j == suc n)) [
          | inl e ↦ let same : j ≡ suc n = ground arith in rw same (omega arith)
          | inr e ↦ let other = low j (ground arith) in ground (arith, lt, other)
        ],
      )
      | inr ge ↦ (
        i,
        omega arith,
        λ j lj. elim (Bool-cases (j == suc n)) [
          | inl e ↦ let same : j ≡ suc n = ground arith in rw same (ground (arith, ge))
          | inr e ↦ low j (ground arith)
        ],
      )
    ]

-- All values are at least `k`, or one is not.
search_lt : (n k : ℕ) (f : ℕ → ℕ) → ((j : ℕ) → j < n → k ≤ f j) ⊎ ((j : ℕ) × (j < n) × (f j < k))
search_lt zero k f = inl (λ j lj. absurd (omega arith))
search_lt (suc n) k f = elim (Bool-cases (ltb (f n) k)) [
  | inl lt ↦ inr (n, omega arith, ground arith)
  | inr ge ↦ elim (search_lt n k f) [
    | inl all ↦ inl (λ j lj. elim (Bool-cases (j == n)) [
      | inl e ↦ let same : j ≡ n = ground arith in rw same (ground (arith, ge))
      | inr e ↦ all j (ground arith)
    ])
    | inr (j, lj, low) ↦ inr (j, omega arith, low)
  ]
]

module _ (n iterations : ℕ) (s : System) (v : Inv n iterations s) where
  -- A thread that another waits for in an iteration, and that has not updated.
  behind-Moves :
      (j k : ℕ) (p : Place)
      → j < n
      → (s.threads j).place ≡ p
      → ((i : ℕ) → i < n → 2 * k + 1 ≤ entered (s.threads i))
      → update_num (s.threads j) < k + 1
      → Moves n iterations s
  behind-Moves j k begin lj e all low =
      let f = Fits-at n iterations j begin s v lj e in
      let m = (s.threads j).iteration in
      absurd (omega (arith, all j lj, ap (λ p. entered_at p m) e, ap (λ p. updates_at p m) e, low))
  behind-Moves j k at_start lj e all low =
      let m = (s.threads j).iteration in
      (
        move s j running,
        runs j lj e (λ i li.
            omega (arith, all i li, ap (λ p. entered_at p m) e, ap (λ p. updates_at p m) e, low)),
      )
  behind-Moves j k running lj e all low = (update_stats j s, updates j lj e)
  behind-Moves j k updated lj e all low =
      let m = (s.threads j).iteration in
      absurd (omega (arith, all j lj, ap (λ p. entered_at p m) e, ap (λ p. updates_at p m) e, low))
  behind-Moves j k at_end lj e all low =
      let m = (s.threads j).iteration in
      absurd (omega (arith, all j lj, ap (λ p. entered_at p m) e, ap (λ p. updates_at p m) e, low))
  behind-Moves j k after_end lj e all low = (print_and_reset j s, resets j lj e)

  -- A dispatcher that waits for the counter waits for a thread that can go on.
  drain-Moves :
      (i : ℕ)
      → i < n
      → (s.threads i).place ≡ updated
      → ((j : ℕ) → j < n → entered (s.threads i) ≤ entered (s.threads j))
      → Moves n iterations s
  drain-Moves i li e low =
      let k = (s.threads i).iteration in
      let f = Fits-at n iterations i updated s v li e in
      let at : entered (s.threads i) ≡ 2 * k + 1 = ap (λ p. entered_at p k) e in
      elim (Bool-cases (may_end n s i)) [
        | inl may ↦ (move s i at_end, ends i li e may)
        | inr wait ↦ elim (search_lt n (k + 1) (λ j. update_num (s.threads j))) [
          | inl all ↦
              let last : k ≡ length s.printed = omega (arith, f.low, f.high, f.wide) in
              let full =
                num_all n (length s.printed + 1) s.threads
                  (λ j lj. omega (arith, all j lj, (v.fits j lj).high, last)) in
              absurd (ground (arith, wait, v.counted, full))
          | inr (j, lj, less) ↦
              behind-Moves j k (s.threads j).place lj refl (λ m lm. omega (arith, low m lm, at))
                less
        ]
      ]

  -- The thread that has entered the barrier least often.
  least-Moves :
      (i : ℕ) (p : Place)
      → i < n
      → (s.threads i).place ≡ p
      → ((j : ℕ) → j < n → entered (s.threads i) ≤ entered (s.threads j))
      → Moves n iterations s ⊎ IsFinished iterations (s.threads i)
  least-Moves i begin li e low =
      let f = Fits-at n iterations i begin s v li e in
      elim (Bool-cases (ltb (s.threads i).iteration iterations)) [
        | inl lt ↦ inl (move s i at_start, starts i li e (ground (arith, lt)))
        | inr ge ↦ inr (e, ground (arith, ge, f.within))
      ]
  least-Moves i at_start li e low = inl (move s i running, runs i li e low)
  least-Moves i running li e low = inl (update_stats i s, updates i li e)
  least-Moves i updated li e low = inl (drain-Moves i li e low)
  least-Moves i at_end li e low = inl (move s i after_end, leaves i li e low)
  least-Moves i after_end li e low = inl (print_and_reset i s, resets i li e)

  -- A thread that is not finished, when all have entered the last wait of the last iteration.
  last-Moves :
      (i : ℕ) (p : Place)
      → i < n
      → (s.threads i).place ≡ p
      → ¬ IsFinished iterations (s.threads i)
      → ((j : ℕ) → j < n → 2 * iterations ≤ entered (s.threads j))
      → Moves n iterations s
  last-Moves i begin li e go low =
      let f = Fits-at n iterations i begin s v li e in
      let at = ap (λ p. entered_at p (s.threads i).iteration) e in
      absurd (go (e, omega (arith, low i li, at, f.within)))
  last-Moves i at_start li e go low =
      let f = Fits-at n iterations i at_start s v li e in
      let at = ap (λ p. entered_at p (s.threads i).iteration) e in
      absurd (omega (arith, low i li, at, f.within))
  last-Moves i running li e go low = (update_stats i s, updates i li e)
  last-Moves i updated li e go low =
      let f = Fits-at n iterations i updated s v li e in
      let at = ap (λ p. entered_at p (s.threads i).iteration) e in
      absurd (omega (arith, low i li, at, f.within))
  last-Moves i at_end li e go low =
      let f = Fits-at n iterations i at_end s v li e in
      let at = ap (λ p. entered_at p (s.threads i).iteration) e in
      (move s i after_end, leaves i li e (λ j lj. omega (arith, low j lj, at, f.within)))
  last-Moves i after_end li e go low = (print_and_reset i s, resets i li e)

  pub unfinished-Moves :
      (i : ℕ) → i < n → ¬ IsFinished iterations (s.threads i) → Moves n iterations s
  unfinished-Moves i li go =
      let (m, lm, low) = least n (λ j. entered (s.threads j)) (omega arith) in
      elim (least-Moves m (s.threads m).place lm refl low) [
        | inl moves ↦ moves
        | inr (p, k) ↦
            let at : entered (s.threads m) ≡ 2 * iterations =
              ap (λ q. entered_at q (s.threads m).iteration) p ∙ ap (λ j. 2 * j) k in
            last-Moves i (s.threads i).place li refl go (λ j lj. omega (arith, low j lj, at))
      ]

-- In each state that a measurement of at most 255 workspaces reaches, as long as one of them has not
-- run all its iterations, some thread can take a step: neither the barrier nor the wait of the
-- dispatchers for `completed_ws_num_` blocks them all.
pub Reach-measure_live :
    (n iterations i : ℕ) {ds : ℕ → Bool} {s : System}
    → n < 2 ^ 8
    → Reach n iterations ds s
    → i < n
    → ¬ IsFinished iterations (s.threads i)
    → (t : System) × Step n iterations s t
Reach-measure_live n iterations i {s} small r li go =
    unfinished-Moves n iterations s (Reach-Inv n iterations small r) i li go
