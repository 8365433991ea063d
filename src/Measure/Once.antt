-- ===== src/Measure/Once.antt =====
-- What holds in each state of a measurement: one report for each iteration, alone, and after all.
use axio_emulator.Prelude.{
  ℕ, ◌+◌, ◌^◌, ◌≤◌, ◌<◌, ◌≡◌, ◌≢◌, refl, sym, ap, ◌∙◌, Bool, true, false, length, arith,
}
use axio_emulator.Measure.{
  begin, running, updated, after_end, Thread, System, may_end, Step, starts, runs, updates, ends,
  leaves, resets, start, Reach, here, moved,
}
use axio_emulator.Measure.Places.{updates_at, update_num, in_report, entered_le, num_none, all_num}
use axio_emulator.Measure.Inv.{
  Signal, quiet, held, Inv, Fits-at, starts-Inv, runs-Inv, ends-Inv, leaves-Inv,
}
use axio_emulator.Measure.Report.{holder_late, reporter, updates-Inv, resets-Inv}

start-Inv : (n iterations : ℕ) (ds : ℕ → Bool) → Inv n iterations (start ds)
start-Inv n iterations ds = record {
  met = 0;
  fits = λ j lj. record {
    left_le = omega arith;
    met_le = omega arith;
    low = omega arith;
    high = omega arith;
    wide = omega arith;
    within = omega arith;
    flagged = λ q. cc;
  };
  counted = sym (num_none n 1 (start ds).threads (λ j lj q. omega (arith, q)));
  signal = quiet refl (λ j lj. (refl, refl));
}

Step-Inv :
    (n iterations : ℕ) {s t : System}
    → n < 2 ^ 8
    → Inv n iterations s
    → Step n iterations s t
    → Inv n iterations t
Step-Inv n iterations {s} small v (starts i li e lt) = starts-Inv n iterations i s v li e lt
Step-Inv n iterations {s} small v (runs i li e opens) = runs-Inv n iterations i s v li e opens
Step-Inv n iterations {s} small v (updates i li e) = updates-Inv n iterations i s small v li e
Step-Inv n iterations {s} small v (ends i li e may) = ends-Inv n iterations i s v li e
Step-Inv n iterations {s} small v (leaves i li e opens) = leaves-Inv n iterations i s v li e opens
Step-Inv n iterations {s} small v (resets i li e) = resets-Inv n iterations i s v li e

pub Reach-Inv :
    (n iterations : ℕ) {ds : ℕ → Bool} {s : System}
    → n < 2 ^ 8
    → Reach n iterations ds s
    → Inv n iterations s
Reach-Inv n iterations {ds} small here = start-Inv n iterations ds
Reach-Inv n iterations small (moved r st) =
    Step-Inv n iterations small (Reach-Inv n iterations small r) st

-- A thread that has run all its iterations.
abbrev pub IsFinished : ℕ → Thread → Type 0
IsFinished iterations t = (t.place ≡ begin) × (t.iteration ≡ iterations)

-- With 1 to 255 workspaces: when all of them have run their iterations, exactly one report is
-- printed for each iteration, and the counter and the signal are as before the first.
pub Reach-reported :
    (n iterations : ℕ) {ds : ℕ → Bool} {s : System}
    → 0 < n
    → n < 2 ^ 8
    → Reach n iterations ds s
    → ((j : ℕ) → j < n → IsFinished iterations (s.threads j))
    → (length s.printed ≡ iterations) × (s.completed_ws_num ≡ 0) × (s.end_signal ≡ false)
Reach-reported n iterations {s} some_ws small r done =
    let v = Reach-Inv n iterations small r in ended v v.signal
  where
    ended :
        Inv n iterations s
        → Signal n (length s.printed) s.end_signal s.threads
        → (length s.printed ≡ iterations) × (s.completed_ws_num ≡ 0) × (s.end_signal ≡ false)
    ended v (quiet off all) =
        let (p, k) = done 0 some_ws in
        let nobody =
          num_none n (length s.printed + 1) s.threads (λ j lj q. omega (arith, q, (all j lj).0)) in
        (
          sym (all 0 some_ws).0 ∙ ap (λ q. updates_at q (s.threads 0).iteration) p ∙ k,
          v.counted ∙ nobody,
          off,
        )
    ended v (held h lh on has mine others) =
        let report = (v.fits h lh).flagged has in
        let contra : false ≡ true = ap in_report (sym (done h lh).0) ∙ report in absurd (cc)

-- At any time, the number of reports printed and the number of times that a workspace has called
-- `update_stats` differ by at most one.
pub Reach-in_step :
    (n iterations : ℕ) {ds : ℕ → Bool} {s : System}
    → n < 2 ^ 8
    → Reach n iterations ds s
    → (j : ℕ) → j < n
    → (length s.printed ≤ update_num (s.threads j))
      × (update_num (s.threads j) ≤ length s.printed + 1)
Reach-in_step n iterations small r j lj =
    let v = Reach-Inv n iterations small r in ((v.fits j lj).low, (v.fits j lj).high)

-- With at most 255 workspaces: a dispatcher goes on to the end of an iteration only when no
-- workspace measures any more: each has called `update_stats` as often as the dispatcher. The
-- number of those that have is what `completed_ws_num_` says, and it does not overflow.
pub Reach-drained :
    (n iterations i : ℕ) {ds : ℕ → Bool} {s : System}
    → n < 2 ^ 8
    → Reach n iterations ds s
    → i < n
    → (s.threads i).place ≡ updated
    → (s.threads i).is_dispatcher ≡ true
    → may_end n s i ≡ true
    → (s.completed_ws_num ≡ n)
      × ((j : ℕ)
          → j < n
          → (update_num (s.threads j) ≡ update_num (s.threads i)) × ((s.threads j).place ≢ running))
Reach-drained n iterations i {s} small r li e disp may =
    let v = Reach-Inv n iterations small r in
    let full : s.completed_ws_num ≡ n = ground (arith, disp, may) in
    let all = all_num n (length s.printed + 1) s.threads (sym v.counted ∙ full) in
    let k = (s.threads i).iteration in
    (
      full,
      λ j lj. (
        all j lj ∙ sym (all i li),
        λ q.
            let f = Fits-at n iterations i updated s v li e in
            let g = Fits-at n iterations j running s v lj q in
            let own : updates_at updated k ≡ length s.printed + 1 =
              ap (λ p. updates_at p k) (sym e) ∙ all i li in
            let other : updates_at running (s.threads j).iteration ≡ length s.printed + 1 =
              ap (λ p. updates_at p (s.threads j).iteration) (sym q) ∙ all j lj in
            omega (arith, f.met_le, g.left_le, own, other),
      ),
    )

-- With at most 255 workspaces: while one prints a report and resets the counters, every other has
-- called `update_stats` as often and entered the second wait of the iteration: none measures,
-- calls `update_stats` or waits for the counter, and no other holds a report.
pub Reach-report_alone :
    (n iterations i : ℕ) {ds : ℕ → Bool} {s : System}
    → n < 2 ^ 8
    → Reach n iterations ds s
    → i < n
    → (s.threads i).place ≡ after_end
    → (s.threads i).stats_init_ws ≡ true
    → (j : ℕ) → j < n
    → j ≢ i
    → ((s.threads j).place ≢ running)
      × ((s.threads j).place ≢ updated)
      × ((s.threads j).stats_init_ws ≡ false)
      × (update_num (s.threads j) ≡ update_num (s.threads i))
Reach-report_alone n iterations i {s} small r li e has j lj ne =
    let v = Reach-Inv n iterations small r in
    let (mine, others) = reporter n (length s.printed) i s.end_signal s.threads li has v.signal in
    let f = Fits-at n iterations i after_end s v li e in
    let own : updates_at after_end (s.threads i).iteration ≡ length s.printed + 1 =
      ap (λ p. updates_at p (s.threads i).iteration) (sym e) ∙ mine in
    let late = holder_late n iterations i s v li has mine in
    (
      λ q.
          let g = Fits-at n iterations j running s v lj q in
          omega (arith, f.left_le, g.left_le, g.met_le, own, late),
      λ q.
          let g = Fits-at n iterations j updated s v lj q in
          omega (arith, f.left_le, g.left_le, g.met_le, own, late),
      others j lj ne,
      (let g = v.fits j lj in
          omega (
            arith,
            g.high,
            g.met_le,
            f.left_le,
            own,
            mine,
            entered_le (s.threads j).place (s.threads j).iteration,
          )),
    )
