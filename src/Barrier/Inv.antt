-- ===== src/Barrier/Inv.antt =====
-- The invariant of the barrier, kept by each step.
use axio_emulator.Prelude.{
  ℕ, ◌+◌, ◌<◌, ◌≡◌, refl, sym, ap, ◌∙◌, ◌≢◌, List, length, get_or, set, length-set,
  length-replicate, get_or-replicate, replicate, ltb, Bool-cases, inl, inr, arith,
}
use mathlib.Core.Path.{subst}
use axio_emulator.Barrier.{
  outside, waiting, Thread, Barrier, new_thread, init, arrive, wake, Step, arrives, wakes, Reach,
  here, moved,
}
use axio_emulator.Barrier.Count.{
  Fits, present_num, present_num-set, all_present, none_present, set-all, is_present-yes,
  is_present-no, is_idle, is_late, present-late, idle, present,
}

pub record Inv (n : ℕ) (s : Barrier × List Thread) : Type 0 where
  pub total : s.0.total_threads ≡ n
  pub threads : length s.1 ≡ n
  pub fits : (i : ℕ) → i < n → Fits s.0.generation (get_or s.1 i new_thread)
  pub counted : s.0.count ≡ present_num s.0.generation s.1
  pub room : s.0.count < n

-- The three steps.
wait-Inv :
    (n i : ℕ) (b : Barrier) (ts : List Thread)
    → Inv n (b, ts)
    → i < n
    → (get_or ts i new_thread).place ≡ outside
    → b.count + 1 < n
    → let t = get_or ts i new_thread in
      Inv n (
        record b { count = b.count + 1 },
        set ts i (record { place = waiting b.generation; entered = t.entered + 1; left = t.left }),
      )
wait-Inv n i b ts v li out few =
    let t = get_or ts i new_thread in
    let t' : Thread = record {
      place = waiting b.generation;
      entered = t.entered + 1;
      left = t.left;
    } in
    let (e, l) = is_idle b.generation t (v.fits i li) out in
    record {
      total = v.total;
      threads = length-set ts i t' ∙ v.threads;
      fits =
          set-all (Fits b.generation) n i ts t' v.threads li (present refl (ap (λ k. k + 1) e) l)
            (λ j lj ne. v.fits j lj);
      counted = omega (
        arith,
        v.counted,
        present_num-set b.generation ts i t' (omega (arith, v.threads)),
        is_present-no b.generation t e,
        is_present-yes b.generation t' (ap (λ k. k + 1) e),
      );
      room = few;
    }

open_gate-Inv :
    (n i : ℕ) (b : Barrier) (ts : List Thread)
    → Inv n (b, ts)
    → i < n
    → (get_or ts i new_thread).place ≡ outside
    → b.count + 1 ≡ n
    → let t = get_or ts i new_thread in
      Inv n (
        record { count = 0; total_threads = b.total_threads; generation = b.generation + 1 },
        set ts i (record { place = outside; entered = t.entered + 1; left = t.left + 1 }),
      )
open_gate-Inv n i b ts v li out last =
    let t = get_or ts i new_thread in
    let t' : Thread = record { place = outside; entered = t.entered + 1; left = t.left + 1 } in
    let (e, l) = is_idle b.generation t (v.fits i li) out in
    let come : (j : ℕ) → j < n → j ≢ i → (get_or ts j new_thread).entered ≡ b.generation + 1 =
      λ j lj ne.
        all_present b.generation ts i j (omega (arith, v.threads)) (is_present-no b.generation t e)
          (omega (arith, v.counted, v.threads)) (omega (arith, v.threads)) ne in
    let len = length-set ts i t' ∙ v.threads in
    record {
      total = v.total;
      threads = len;
      fits =
          set-all (Fits (b.generation + 1)) n i ts t' v.threads li
            (idle refl (ap (λ k. k + 1) e) (ap (λ k. k + 1) l))
            (λ j lj ne. present-late b.generation _ (v.fits j lj) (come j lj ne));
      counted = sym (
          none_present (b.generation + 1) (set ts i t') (λ j lj.
            set-all (λ u. u.entered ≡ b.generation + 1) n i ts t' v.threads li (ap (λ k. k + 1) e)
              come j (omega (arith, len))));
      room = omega arith;
    }

wake-Inv :
    (n i gen : ℕ) (b : Barrier) (ts : List Thread)
    → Inv n (b, ts)
    → i < n
    → (get_or ts i new_thread).place ≡ waiting gen
    → gen ≢ b.generation
    → Inv n (b, set ts i (wake (get_or ts i new_thread)))
unfolding wake
wake-Inv n i gen b ts v li w ne =
    let t = get_or ts i new_thread in
    let t' = wake t in
    let (e, l) = is_late b.generation gen t (v.fits i li) w ne in
    record {
      total = v.total;
      threads = length-set ts i t' ∙ v.threads;
      fits =
          set-all (Fits b.generation) n i ts t' v.threads li (idle refl e l)
            (λ j lj other. v.fits j lj);
      counted = omega (
        arith,
        v.counted,
        present_num-set b.generation ts i t' (omega (arith, v.threads)),
        is_present-no b.generation t e,
        is_present-no b.generation t' e,
      );
      room = v.room;
    }

Step-Inv : (n : ℕ) {s t : Barrier × List Thread} → Inv n s → Step s t → Inv n t
unfolding arrive
Step-Inv n v (arrives b ts i li out) = elim (Bool-cases (ltb (b.count + 1) b.total_threads)) [
  | inl few ↦ rw few (wait-Inv n i b ts v (omega (arith, v.threads)) out (ground (arith, v.total)))
  | inr full ↦
      rw full
        (open_gate-Inv n i b ts v (omega (arith, v.threads)) out (ground (arith, v.total, v.room)))
]
Step-Inv n v (wakes b ts i gen li w ne) = wake-Inv n i gen b ts v (omega (arith, v.threads)) w ne

init-Inv : (n : ℕ) → n ≢ 0 → Inv n (init n, replicate n new_thread)
unfolding init
init-Inv n ne = record {
  total = refl;
  threads = length-replicate n new_thread;
  fits = λ i li. subst (Fits 0) (sym (get_or-replicate n i new_thread)) (idle refl refl refl);
  counted = sym (
      none_present 0 (replicate n new_thread)
        (λ j lj. ap (λ t. t.entered) (get_or-replicate n j new_thread)));
  room = omega arith;
}

pub Reach-Inv :
    (n : ℕ) {s : Barrier × List Thread} → n ≢ 0 → Reach (init n, replicate n new_thread) s → Inv n s
Reach-Inv n ne here = init-Inv n ne
Reach-Inv n ne (moved r step) = Step-Inv n (Reach-Inv n ne r) step
