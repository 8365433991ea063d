-- ===== src/Perf/Extremes.antt =====
-- The largest and the smallest times of a report.
use mathlib.Core.Path.{subst}
use axio_emulator.Prelude.{
  ℕ, zero, suc, ◌≡◌, ◌≢◌, refl, sym, ap, ◌∙◌, ◌⊎◌, inl, inr, List, [], ◌∷◌, Bool, true, false, some,
  get_elem?, Bool-cases, if◌then◌else◌,
}
use axio_emulator.Roce.{Node}
use axio_emulator.Perf.{
  Double, Latency, PerfStats, Ws, counted, to_usec, aggregate_stats, aggregate_all, worker_num,
  dispatcher_num, mean_latency, average, collect_stats, no_latency, perf_stats_init, check_min,
  checked, report,
}
use axio_emulator.Perf.Kinds.{
  Kind, msg_num, durations, latency, with_latency, latency-aggregate_stats, app_tx_compl,
}

-- What holds of `<` on `double`, NaN included.
pub record IsOrder (D : Type 0) ⦃d : Double D⦄ : Type 0 where
  pub irrefl : (x : D) → d.lt x x ≡ false
  pub trans : (x y z : D) → d.lt x y ≡ true → d.lt y z ≡ true → d.lt x z ≡ true

some_inj {ℓ} : {A : Type ℓ} {a b : A} → some a ≡ some b → a ≡ b
some_inj e = cc

true_not_false : true ≢ false
true_not_false e = cc

module _ {D : Type 0} ⦃d : Double D⦄ where
  -- The largest and the smallest time of a workspace.
  abbrev pub longest : Kind → Ws D → D
  longest k w = to_usec (durations k w.stats).max_duration w.freq

  abbrev pub shortest : Kind → Ws D → D
  shortest k w = to_usec (durations k w.stats).min_duration w.freq

  -- A workspace among those measured that has counted messages.
  pub record Took (k : Kind) (ws : List (Ws D)) (w : Ws D) : Type 0 where
    pub i : ℕ
    pub there : get_elem? ws i ≡ some w
    pub some_msg : counted (msg_num k w.stats) ≡ true

  abbrev fold_latency : Kind → List (Ws D) → Latency D → Latency D
  fold_latency k [] l = l
  fold_latency k (w ∷ ws) l = fold_latency k ws (with_latency k w l)

  latency-aggregate_all :
      (duration : ℕ) (k : Kind) (ws : List (Ws D)) (g : PerfStats D)
      → latency k (aggregate_all duration ws g) ≡ fold_latency k ws (latency k g)
  unfolding aggregate_all
  latency-aggregate_all duration k [] g = refl
  latency-aggregate_all duration k (w ∷ ws) g =
      latency-aggregate_all duration k ws (aggregate_stats duration w g)
      ∙ ap (fold_latency k ws) (latency-aggregate_stats duration k w g)

  latency-checked :
      (node : Node) (k : Kind) (workers dispatchers : ℕ) (g : PerfStats D)
      → latency k (checked node (average workers dispatchers g))
        ≡ check_min (mean_latency workers (latency k g))
  unfolding checked average
  latency-checked node app_tx_compl workers dispatchers g = refl
  latency-checked node _ workers dispatchers g = refl

  latency-perf_stats_init : (k : Kind) → latency k perf_stats_init ≡ no_latency {D = D}
  unfolding perf_stats_init
  latency-perf_stats_init app_tx_compl = refl
  latency-perf_stats_init _ = refl

  latency-report :
      (node : Node) (duration : ℕ) (k : Kind) (ws : List (Ws D))
      → latency k (report node duration ws)
        ≡ check_min (mean_latency (worker_num ws) (fold_latency k ws no_latency))
  unfolding report collect_stats
  latency-report node duration k ws =
      latency-checked node k (worker_num ws) (dispatcher_num ws)
        (aggregate_all duration ws perf_stats_init)
      ∙ ap (λ l. check_min (mean_latency (worker_num ws) l))
          (latency-aggregate_all duration k ws perf_stats_init
            ∙ ap (fold_latency k ws) (latency-perf_stats_init k))

module _ {D : Type 0} ⦃d : Double D⦄ where
  Took-later : {k : Kind} {ws : List (Ws D)} {w : Ws D} (v : Ws D) → Took k ws w → Took k (v ∷ ws) w
  Took-later v t = record { i = suc t.i; there = t.there; some_msg = t.some_msg }

  -- The maximum is what it was, or the longest time of a workspace.
  abbrev IsOf : Kind → List (Ws D) → D → D → Type 0
  IsOf k ws m old = (m ≡ old) ⊎ ((w : Ws D) × Took k ws w × (m ≡ longest k w))

  step-IsOf :
      (k : Kind) (ws : List (Ws D)) (w : Ws D) (l : Latency D)
      → IsOf k (w ∷ ws) (with_latency k w l).max l.max
  step-IsOf k ws w l = elim (Bool-cases (counted (msg_num k w.stats))) [
    | inl some_msg ↦ elim (Bool-cases (d.lt l.max (longest k w))) [
      | inl up ↦
          inr (w, record { i = 0; there = refl; some_msg = some_msg }, rw (some_msg, up) refl)
      | inr no_up ↦ inl (rw (some_msg, no_up) refl)
    ]
    | inr no_msg ↦ inl (rw no_msg refl)
  ]

  fold-IsOf :
      (k : Kind) (ws : List (Ws D)) (l : Latency D) → IsOf k ws (fold_latency k ws l).max l.max
  fold-IsOf k [] l = inl refl
  fold-IsOf k (w ∷ ws) l = elim (fold-IsOf k ws (with_latency k w l)) [
    | inr (v, t, e) ↦ inr (v, Took-later w t, e)
    | inl e ↦ elim (step-IsOf k ws w l) [
      | inl e' ↦ inl (e ∙ e')
      | inr (v, t, e') ↦ inr (v, t, e ∙ e')
    ]
  ]

-- What is kept of a value that is replaced where it is exceeded, in either direction.
module _ {D : Type 0} (lt : D → D → Bool) (irrefl : (x : D) → lt x x ≡ false)
    (trans : (x y z : D) → lt x y ≡ true → lt y z ≡ true → lt x z ≡ true) where
  abbrev replaced : D → D → D
  replaced m v = if lt m v then v else m

  replaced-keeps : (m v x : D) → lt m x ≡ false → lt (replaced m v) x ≡ false
  replaced-keeps m v x below = elim (Bool-cases (lt m v)) [
    | inl up ↦ rw up (elim (Bool-cases (lt v x)) [
      | inl more ↦ absurd (true_not_false (sym (trans m v x up more) ∙ below))
      | inr e ↦ e
    ])
    | inr no_up ↦ rw no_up below
  ]

  replaced-bounds : (m v : D) → lt (replaced m v) v ≡ false
  replaced-bounds m v = elim (Bool-cases (lt m v)) [
    | inl up ↦ rw up (irrefl v)
    | inr no_up ↦ rw no_up no_up
  ]

module _ {D : Type 0} ⦃d : Double D⦄ (order : IsOrder D) where
  -- A latency whose extremes a time does not exceed.
  abbrev Covers : Latency D → D → D → Type 0
  Covers l longest_at shortest_at =
      (d.lt l.max longest_at ≡ false) × (d.lt shortest_at l.min ≡ false)

  step-Covers :
      (k : Kind) (w : Ws D) (l : Latency D) (x y : D)
      → Covers l x y
      → Covers (with_latency k w l) x y
  step-Covers k w l x y c = elim (Bool-cases (counted (msg_num k w.stats))) [
    | inl some_msg ↦ rw some_msg (
      replaced-keeps d.lt order.irrefl order.trans l.max (longest k w) x c.0,
      replaced-keeps (λ a b. d.lt b a) order.irrefl (λ a b c p q. order.trans c b a q p) l.min
          (shortest k w) y c.1,
    )
    | inr no_msg ↦ rw no_msg c
  ]

  own-Covers :
      (k : Kind) (w : Ws D) (l : Latency D)
      → counted (msg_num k w.stats) ≡ true
      → Covers (with_latency k w l) (longest k w) (shortest k w)
  own-Covers k w l some_msg = rw some_msg (
    replaced-bounds d.lt order.irrefl order.trans l.max (longest k w),
    replaced-bounds (λ a b. d.lt b a) order.irrefl (λ a b c p q. order.trans c b a q p) l.min
        (shortest k w),
  )

  fold-Covers :
      (k : Kind) (ws : List (Ws D)) (l : Latency D) (x y : D)
      → Covers l x y
      → Covers (fold_latency k ws l) x y
  fold-Covers k [] l x y c = c
  fold-Covers k (w ∷ ws) l x y c =
      fold-Covers k ws (with_latency k w l) x y (step-Covers k w l x y c)

  fold-each :
      (k : Kind) (ws : List (Ws D)) (l : Latency D) (i : ℕ) (w : Ws D)
      → get_elem? ws i ≡ some w
      → counted (msg_num k w.stats) ≡ true
      → Covers (fold_latency k ws l) (longest k w) (shortest k w)
  fold-each k [] l i w e some_msg = cc
  fold-each k (v ∷ ws) l zero w e some_msg =
      let same = some_inj e in
      subst (λ u. Covers (fold_latency k (v ∷ ws) l) (longest k u) (shortest k u)) same
        (fold-Covers k ws (with_latency k v l) (longest k v) (shortest k v)
          (own-Covers k v l (ap (λ u. counted (msg_num k u.stats)) same ∙ some_msg)))
  fold-each k (v ∷ ws) l (suc i) w e some_msg = fold-each k ws (with_latency k v l) i w e some_msg

-- The extremes of a report, for one of the latencies of the applications: no workspace took longer
-- than the maximum, which one took unless it is 0, and none took less than the minimum, unless 9999
-- stands there in its place.
pub record IsSpanned {D : Type 0} ⦃d : Double D⦄ (k : Kind) (ws : List (Ws D)) (l : Latency D)
    : Type 0 where
  pub no_longer : (w : Ws D) → Took k ws w → d.lt l.max (longest k w) ≡ false
  pub attained : (l.max ≡ d.of_num 0) ⊎ ((w : Ws D) × Took k ws w × (l.max ≡ longest k w))
  pub no_shorter :
      (w : Ws D) → Took k ws w → (l.min ≡ d.of_num 9999) ⊎ (d.lt (shortest k w) l.min ≡ false)

check_min-either :
    {D : Type 0} ⦃d : Double D⦄ (l : Latency D) (y : D)
    → d.lt y l.min ≡ false
    → ((check_min l).min ≡ d.of_num 9999) ⊎ (d.lt y (check_min l).min ≡ false)
check_min-either {D} ⦃d⦄ l y low = elim (Bool-cases (d.lt l.max l.min)) [
  | inl none_took ↦ inl (rw none_took refl)
  | inr took ↦ inr (rw took low)
]

-- As `<` on `double` is irreflexive and transitive: the report of an iteration names the extremes of
-- what the workspaces with messages measured.
pub report-IsSpanned :
    {D : Type 0} ⦃d : Double D⦄ (order : IsOrder D) (node : Node) (duration : ℕ) (k : Kind)
    (ws : List (Ws D))
    → IsSpanned k ws (latency k (report node duration ws))
report-IsSpanned {D} ⦃d⦄ order node duration k ws =
    let l = fold_latency k ws no_latency in
    let m = mean_latency (worker_num ws) l in
    subst (IsSpanned k ws) (sym (latency-report node duration k ws)) (record {
      no_longer = λ w t. (fold-each order k ws no_latency t.i w t.there t.some_msg).0;
      attained = fold-IsOf k ws no_latency;
      no_shorter = λ w t.
          check_min-either m (shortest k w)
            (fold-each order k ws no_latency t.i w t.there t.some_msg).1;
    })
