-- ===== src/Measure/Inv.antt =====
-- The invariant of a measurement, kept by each step.
use native.Mathlib.Decide.{ℕ_discrete}
use mathlib.Core.Path.{subst}
use axio_emulator.Prelude.{
  ℕ, ◌+◌, ◌*◌, ◌≤◌, ◌<◌, ◌≡◌, ◌≢◌, refl, sym, ap, ◌∙◌, Bool, true, false, length, arith,
}
use axio_emulator.Rules.{update}
use axio_emulator.Measure.{
  Place, begin, at_start, running, updated, at_end, after_end, Thread, System, put, move,
  entered_at, entered, Opens,
}
use axio_emulator.Measure.Places.{
  updates_at, update_num, left_at, in_report, num, num-ext, update-all, update_self, update_ne,
}

abbrev pub busy_at : Place → ℕ
busy_at begin = 0
busy_at at_start = 1
busy_at running = 1
busy_at updated = 1
busy_at at_end = 1
busy_at after_end = 1

-- Where a thread can be when the barrier has opened `met` times and `r` reports are printed.
pub record Fits (r met iterations : ℕ) (p : Place) (k : ℕ) (flag : Bool) : Type 0 where
  pub left_le : left_at p k ≤ met
  pub met_le : met ≤ entered_at p k
  pub low : r ≤ updates_at p k
  pub high : updates_at p k ≤ r + 1
  pub wide : 2 * r ≤ entered_at p k
  pub within : k + busy_at p ≤ iterations
  pub flagged : flag ≡ true → in_report p ≡ true

abbrev pub FitsThread : ℕ → ℕ → ℕ → Thread → Type 0
FitsThread r met iterations t = Fits r met iterations t.place t.iteration t.stats_init_ws

-- No one has updated yet, or one thread holds the report.
pub data Signal (n r : ℕ) (e : Bool) (ts : ℕ → Thread) : Type 0 where
  quiet :
      e ≡ false
      → ((j : ℕ) → j < n → (update_num (ts j) ≡ r) × ((ts j).stats_init_ws ≡ false))
      → Signal n r e ts
  held :
      (h : ℕ)
      → h < n
      → e ≡ true
      → (ts h).stats_init_ws ≡ true
      → update_num (ts h) ≡ r + 1
      → ((j : ℕ) → j < n → j ≢ h → (ts j).stats_init_ws ≡ false)
      → Signal n r e ts

pub record Inv (n iterations : ℕ) (s : System) : Type 0 where
  pub met : ℕ
  pub fits : (j : ℕ) → j < n → FitsThread (length s.printed) met iterations (s.threads j)
  pub counted : s.completed_ws_num ≡ num n (length s.printed + 1) s.threads
  pub signal : Signal n (length s.printed) s.end_signal s.threads

Signal-update :
    (n r i : ℕ) (e : Bool) (ts : ℕ → Thread) (t : Thread)
    → update_num t ≡ update_num (ts i)
    → t.stats_init_ws ≡ (ts i).stats_init_ws
    → i < n
    → Signal n r e ts
    → Signal n r e (update ts i t)
Signal-update n r i e ts t num flag li (quiet off all) = quiet off (
    update-all (λ j u. (update_num u ≡ r) × (u.stats_init_ws ≡ false)) n i ts t
      (num ∙ (all i li).0, flag ∙ (all i li).1) (λ j lj ne. all j lj))
Signal-update n r i e ts t num flag li (held h lh on has mine others) = elim (ℕ_discrete h i) [
  | yes same ↦
      let it : update ts i t h ≡ t = rw same (update_self ts i t) in
      held h lh on
        (ap (λ u. u.stats_init_ws) it ∙ flag ∙ ap (λ j. (ts j).stats_init_ws) (sym same) ∙ has)
        (ap update_num it ∙ num ∙ ap (λ j. update_num (ts j)) (sym same) ∙ mine)
        (update-all (λ j u. j ≢ h → u.stats_init_ws ≡ false) n i ts t (λ ne. absurd (ne (sym same)))
          (λ j lj _. others j lj))
  | no diff ↦
      let it : update ts i t h ≡ ts h = update_ne ts i h t diff in
      held h lh on (ap (λ u. u.stats_init_ws) it ∙ has) (ap update_num it ∙ mine) (
        update-all (λ j u. j ≢ h → u.stats_init_ws ≡ false) n i ts t (λ ne. flag ∙ others i li ne)
          (λ j lj _. others j lj))
]

-- A thread that moves on within its part of the iteration.
pub put-Inv :
    (n iterations i met : ℕ) (t' : Thread) (s : System)
    → (v : Inv n iterations s) → i < n
    → v.met ≤ met
    → ((j : ℕ) → j < n → met ≤ entered (s.threads j))
    → update_num t' ≡ update_num (s.threads i)
    → t'.stats_init_ws ≡ (s.threads i).stats_init_ws
    → FitsThread (length s.printed) met iterations t'
    → Inv n iterations (put s i t')
put-Inv n iterations i met t' s v li more all num flag fits = record {
  met = met;
  fits =
      update-all (λ j u. FitsThread (length s.printed) met iterations u) n i s.threads t' fits
        (λ j lj ne.
          let f = v.fits j lj in
          record {
            left_le = omega (arith, f.left_le);
            met_le = all j lj;
            low = f.low;
            high = f.high;
            wide = f.wide;
            within = f.within;
            flagged = f.flagged;
          });
  counted =
      v.counted
      ∙ sym (
          num-ext n (length s.printed + 1) s.threads (update s.threads i t') (
            update-all (λ j u. update_num u ≡ update_num (s.threads j)) n i s.threads t' num
              (λ j lj ne. refl)));
  signal = Signal-update n (length s.printed) i s.end_signal s.threads t' num flag li v.signal;
}

pub Fits-at :
    (n iterations i : ℕ) (p : Place) (s : System) (v : Inv n iterations s)
    → i < n
    → (s.threads i).place ≡ p
    → Fits (length s.printed) v.met iterations p (s.threads i).iteration (s.threads i).stats_init_ws
Fits-at n iterations i p s v li e =
    subst
      (λ q.
        Fits (length s.printed) v.met iterations q (s.threads i).iteration
          (s.threads i).stats_init_ws)
      e (v.fits i li)

-- A thread that goes on from one place to another.
pub move-Inv :
    (n iterations i met : ℕ) (p q : Place) (s : System)
    → (v : Inv n iterations s) → i < n
    → (s.threads i).place ≡ p
    → v.met ≤ met
    → ((j : ℕ) → j < n → met ≤ entered (s.threads j))
    → updates_at q (s.threads i).iteration ≡ updates_at p (s.threads i).iteration
    → (Fits
          (length s.printed)
          v.met
          iterations
          p
          (s.threads i).iteration
          (s.threads i).stats_init_ws
        → Fits
            (length s.printed)
            met
            iterations
            q
            (s.threads i).iteration
            (s.threads i).stats_init_ws)
    → Inv n iterations (move s i q)
move-Inv n iterations i met p q s v li e more all num fits =
    let t = s.threads i in
    put-Inv n iterations i met (record t { place = q }) s v li more all
      (num ∙ ap (λ r. updates_at r t.iteration) (sym e)) refl
      (fits (Fits-at n iterations i p s v li e))

pub starts-Inv :
    (n iterations i : ℕ) (s : System)
    → Inv n iterations s
    → i < n
    → (s.threads i).place ≡ begin
    → (s.threads i).iteration < iterations
    → Inv n iterations (move s i at_start)
starts-Inv n iterations i s v li e lt =
    move-Inv n iterations i v.met begin at_start s v li e (omega arith)
      (λ j lj. (v.fits j lj).met_le) refl
      (λ f. record {
        left_le = f.left_le;
        met_le = omega (arith, f.met_le);
        low = f.low;
        high = f.high;
        wide = omega (arith, f.wide);
        within = omega arith;
        flagged = f.flagged;
      })

pub runs-Inv :
    (n iterations i : ℕ) (s : System)
    → Inv n iterations s
    → i < n
    → (s.threads i).place ≡ at_start
    → Opens n s (entered (s.threads i))
    → Inv n iterations (move s i running)
runs-Inv n iterations i s v li e opens =
    let k = (s.threads i).iteration in
    let at : entered (s.threads i) ≡ 2 * k + 1 = ap (λ p. entered_at p k) e in
    move-Inv n iterations i (2 * k + 1) at_start running s v li e
      (omega (arith, (v.fits i li).met_le, at)) (λ j lj. omega (arith, opens j lj, at)) refl
      (λ f. record {
        left_le = omega arith;
        met_le = omega arith;
        low = f.low;
        high = f.high;
        wide = f.wide;
        within = f.within;
        flagged = f.flagged;
      })

pub ends-Inv :
    (n iterations i : ℕ) (s : System)
    → Inv n iterations s
    → i < n
    → (s.threads i).place ≡ updated
    → Inv n iterations (move s i at_end)
ends-Inv n iterations i s v li e =
    move-Inv n iterations i v.met updated at_end s v li e (omega arith)
      (λ j lj. (v.fits j lj).met_le) refl
      (λ f. record {
        left_le = f.left_le;
        met_le = omega (arith, f.met_le);
        low = f.low;
        high = f.high;
        wide = omega (arith, f.wide);
        within = f.within;
        flagged = λ _. refl;
      })

pub leaves-Inv :
    (n iterations i : ℕ) (s : System)
    → Inv n iterations s
    → i < n
    → (s.threads i).place ≡ at_end
    → Opens n s (entered (s.threads i))
    → Inv n iterations (move s i after_end)
leaves-Inv n iterations i s v li e opens =
    let k = (s.threads i).iteration in
    let at : entered (s.threads i) ≡ 2 * k + 2 = ap (λ p. entered_at p k) e in
    move-Inv n iterations i (2 * k + 2) at_end after_end s v li e
      (omega (arith, (v.fits i li).met_le, at)) (λ j lj. omega (arith, opens j lj, at)) refl
      (λ f. record {
        left_le = omega arith;
        met_le = omega arith;
        low = f.low;
        high = f.high;
        wide = f.wide;
        within = f.within;
        flagged = λ _. refl;
      })
