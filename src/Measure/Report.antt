-- ===== src/Measure/Report.antt =====
-- `update_stats` and the report at the end of an iteration keep the invariant of a measurement.
use native.Mathlib.Decide.{ℕ_discrete}
use axio_emulator.Prelude.{
  ℕ, ◌+◌, ◌*◌, ◌^◌, ◌≤◌, ◌<◌, ◌≡◌, ◌≢◌, refl, sym, ap, ◌∙◌, [], ◌∷◌, ◌++◌, Bool, true, false,
  Bool-cases, inl, inr, if◌then◌else◌, length, length-append, arith,
}
use axio_emulator.Rules.{update}
use axio_emulator.Measure.{
  begin, running, updated, after_end, Thread, System, update_stats, print_and_reset,
}
use axio_emulator.Measure.Places.{
  updates_at, update_num, entered_le, report_le, num, num_le, num-one, num_none, update-all,
  update_self, update_ne,
}
use axio_emulator.Measure.Inv.{FitsThread, Signal, quiet, held, Inv, put-Inv, Fits-at}

-- The holder of the report is still in the iteration that it reports.
pub holder_late :
    (n iterations h : ℕ) (s : System)
    → (v : Inv n iterations s) → h < n
    → (s.threads h).stats_init_ws ≡ true
    → update_num (s.threads h) ≡ length s.printed + 1
    → v.met ≤ 2 * length s.printed + 2
holder_late n iterations h s v lh has mine =
    let t = s.threads h in
    let f = v.fits h lh in
    omega (arith, f.met_le, mine, report_le t.place t.iteration (f.flagged has))

-- A thread that measures has updated as often as reports are printed.
pub running_fresh :
    (n iterations i : ℕ) (s : System)
    → Inv n iterations s
    → i < n
    → (s.threads i).place ≡ running
    → (s.threads i).iteration ≡ length s.printed
running_fresh n iterations i s v li e = fresh v.signal
  where
    fresh :
        Signal n (length s.printed) s.end_signal s.threads
        → (s.threads i).iteration ≡ length s.printed
    fresh (quiet off all) = ap (λ p. updates_at p (s.threads i).iteration) (sym e) ∙ (all i li).0
    fresh (held h lh on has mine others) =
        let f = Fits-at n iterations i running s v li e in
        omega (arith, f.low, f.high, f.left_le, holder_late n iterations h s v lh has mine)

-- The first thread to update takes the report; a later one leaves it to its holder.
updates-Signal :
    (n r i : ℕ) (e : Bool) (ts : ℕ → Thread) (t : Thread)
    → i < n
    → (ts i).stats_init_ws ≡ false
    → t.stats_init_ws ≡ (if e then (ts i).stats_init_ws else true)
    → update_num t ≡ r + 1
    → Signal n r e ts
    → Signal n r true (update ts i t)
updates-Signal n r i e ts t li clear flag now (quiet off all) =
    let mine : t.stats_init_ws ≡ true =
      flag ∙ ap (λ b. if b then (ts i).stats_init_ws else true) off in
    held i li refl (ap (λ u. u.stats_init_ws) (update_self ts i t) ∙ mine)
      (ap update_num (update_self ts i t) ∙ now)
      (λ j lj ne. ap (λ u. u.stats_init_ws) (update_ne ts i j t ne) ∙ (all j lj).1)
updates-Signal n r i e ts t li clear flag now (held h lh on has mine others) =
    let diff : h ≢ i =
      λ q. let no : true ≡ false = sym has ∙ ap (λ j. (ts j).stats_init_ws) q ∙ clear in cc in
    let it : update ts i t h ≡ ts h = update_ne ts i h t diff in
    let rest : t.stats_init_ws ≡ false =
      flag ∙ ap (λ b. if b then (ts i).stats_init_ws else true) on ∙ clear in
    held h lh refl (ap (λ u. u.stats_init_ws) it ∙ has) (ap update_num it ∙ mine) (
      update-all (λ j u. j ≢ h → u.stats_init_ws ≡ false) n i ts t (λ ne. rest)
        (λ j lj _. others j lj))

pub updates-Inv :
    (n iterations i : ℕ) (s : System)
    → n < 2 ^ 8
    → Inv n iterations s
    → i < n
    → (s.threads i).place ≡ running
    → Inv n iterations (update_stats i s)
updates-Inv n iterations i s small v li e =
    let t = s.threads i in
    let k = t.iteration in
    let r = length s.printed in
    let flag = if s.end_signal then t.stats_init_ws else true in
    let t' = record t { place = updated; stats_init_ws = flag } in
    let us = update s.threads i t' in
    let fresh = running_fresh n iterations i s v li e in
    let f = Fits-at n iterations i running s v li e in
    let before : update_num t ≡ r = ap (λ p. updates_at p k) e ∙ fresh in
    let now : update_num (us i) ≡ r + 1 =
      ap update_num (update_self s.threads i t') ∙ ap (λ j. j + 1) fresh in
    let one : num n (r + 1) us ≡ num n (r + 1) s.threads + 1 =
      num-one n (r + 1) i s.threads us li now (λ q. omega (arith, q, before))
        (λ j lj ne. ap update_num (update_ne s.threads i j t' ne)) in
    record {
      met = v.met;
      fits =
          update-all (λ j u. FitsThread r v.met iterations u) n i s.threads t'
            (record {
              left_le = f.left_le;
              met_le = f.met_le;
              low = omega (arith, fresh);
              high = omega (arith, fresh);
              wide = f.wide;
              within = f.within;
              flagged = λ _. refl;
            })
            (λ j lj ne. v.fits j lj);
      counted = omega (arith, one, v.counted, num_le n (r + 1) us);
      signal =
          updates-Signal n r i s.end_signal s.threads t' li
            (not_reporting t.stats_init_ws f.flagged) refl (ap (λ j. j + 1) fresh) v.signal;
    }
  where
    not_reporting : (b : Bool) → (b ≡ true → false ≡ true) → b ≡ false
    not_reporting true h = sym (h refl)
    not_reporting false h = refl

-- Who has the flag holds the report.
pub reporter :
    (n r i : ℕ) (e : Bool) (ts : ℕ → Thread)
    → i < n
    → (ts i).stats_init_ws ≡ true
    → Signal n r e ts
    → (update_num (ts i) ≡ r + 1) × ((j : ℕ) → j < n → j ≢ i → (ts j).stats_init_ws ≡ false)
reporter n r i e ts li has (quiet off all) =
    let clear = (all i li).1 in let no : true ≡ false = sym has ∙ clear in absurd (cc)
reporter n r i e ts li has (held h lh on has' mine others) = elim (ℕ_discrete h i) [
  | yes same ↦
      (ap (λ j. update_num (ts j)) (sym same) ∙ mine, λ j lj ne. others j lj (λ q. ne (q ∙ same)))
  | no diff ↦
      let no_flag = others i li (λ q. diff (sym q)) in
      let contra : true ≡ false = sym has ∙ no_flag in absurd (cc)
]

print-Inv :
    (n iterations i : ℕ) (s : System)
    → Inv n iterations s
    → i < n
    → (s.threads i).place ≡ after_end
    → (s.threads i).stats_init_ws ≡ true
    → Inv n iterations (record {
      completed_ws_num = 0;
      end_signal = false;
      printed = s.printed ++ (i ∷ []);
      threads = update s.threads i (record (s.threads i) {
        place = begin;
        iteration = (s.threads i).iteration + 1;
        stats_init_ws = false;
      });
    })
print-Inv n iterations i s v li e has =
    let r = length s.printed in
    let k = (s.threads i).iteration in
    let t' = record (s.threads i) { place = begin; iteration = k + 1; stats_init_ws = false } in
    let more : length (s.printed ++ (i ∷ [])) ≡ r + 1 = length-append s.printed (i ∷ []) in
    let (mine, others) = reporter n r i s.end_signal s.threads li has v.signal in
    let f = Fits-at n iterations i after_end s v li e in
    let last : k ≡ r = omega (arith, ap (λ p. updates_at p k) e, mine) in
    let done : (j : ℕ) → j < n → update_num (s.threads j) ≡ r + 1 = λ j lj.
      let g = v.fits j lj in
      let t = s.threads j in
      omega (arith, g.high, g.met_le, f.left_le, last, entered_le t.place t.iteration) in
    let same : (j : ℕ) → j < n → update_num (update s.threads i t' j) ≡ r + 1 =
      update-all (λ j u. update_num u ≡ r + 1) n i s.threads t' (ap (λ m. m + 1) last)
        (λ j lj ne. done j lj) in
    record {
      met = v.met;
      fits = rw more (
          update-all (λ j u. FitsThread (r + 1) v.met iterations u) n i s.threads t'
            (record {
              left_le = omega (arith, f.left_le);
              met_le = omega (arith, f.met_le);
              low = omega (arith, last);
              high = omega (arith, last);
              wide = omega (arith, last);
              within = omega (arith, f.within);
              flagged = λ q. cc;
            })
            (λ j lj ne.
              let g = v.fits j lj in
              record {
                left_le = g.left_le;
                met_le = g.met_le;
                low = omega (arith, done j lj);
                high = omega (arith, done j lj);
                wide = omega (arith, g.met_le, f.left_le, last);
                within = g.within;
                flagged = g.flagged;
              }));
      counted = rw more (
          sym (
            num_none n (r + 1 + 1) (update s.threads i t')
              (λ j lj q. omega (arith, q, same j lj))));
      signal = rw more (
          quiet refl (
            update-all (λ j u. (update_num u ≡ r + 1) × (u.stats_init_ws ≡ false)) n i s.threads t'
              (ap (λ m. m + 1) last, refl) (λ j lj ne. (done j lj, others j lj ne))));
    }

pub resets-Inv :
    (n iterations i : ℕ) (s : System)
    → Inv n iterations s
    → i < n
    → (s.threads i).place ≡ after_end
    → Inv n iterations (print_and_reset i s)
resets-Inv n iterations i s v li e = elim (Bool-cases (s.threads i).stats_init_ws) [
  | inl has ↦ rw has (print-Inv n iterations i s v li e has)
  | inr no_flag ↦
      let f = Fits-at n iterations i after_end s v li e in
      let k = (s.threads i).iteration in
      rw no_flag (
        put-Inv n iterations i v.met
          (record (s.threads i) { place = begin; iteration = k + 1; stats_init_ws = false }) s v li
          (omega arith) (λ j lj. (v.fits j lj).met_le) (ap (λ p. updates_at p k) (sym e))
          (sym no_flag)
          (record {
            left_le = omega (arith, f.left_le);
            met_le = omega (arith, f.met_le);
            low = f.low;
            high = f.high;
            wide = omega (arith, f.wide);
            within = omega (arith, f.within);
            flagged = λ q. cc;
          }))
]
