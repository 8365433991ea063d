-- ===== src/Prelude/Ring.antt =====
-- Arrays used as rings of `m` slots: reading `n` slots from an index on, going round at the end.
use native.Mathlib.Nat.{mod-add-mod, mod-eq_of_lt, mod-eq-sub-mod, add-zero, mod-lt}
use native.Mathlib.Decide.{dec_lt}
use Prim.Native.Nat.{ℕ, zero, suc, ◌+◌, ◌-◌, ◌%◌, ◌<◌}
use mathlib.Core.Path.{◌≡◌, refl, sym, ap, ap₂, ◌∙◌}
use mathlib.Core.Logic.{◌≢◌}
use mathlib.Core.List.{List, [], ◌∷◌, ◌++◌}
use native.Mathlib.Omega.{arith}
use axio_emulator.Prelude.Lists.{length, drop, get_or, set, get_or-set_self, get_or-set_ne}

module _ (m : ℕ) where
  abbrev pub slots : List ℕ → ℕ → ℕ → List ℕ
  slots buf h zero = []
  slots buf h (suc n) = get_or buf h 0 ∷ slots buf ((h + 1) % m) n

  pub length-slots : (buf : List ℕ) (h n : ℕ) → length (slots buf h n) ≡ n
  length-slots buf h zero = refl
  length-slots buf h (suc n) = ap suc (length-slots buf ((h + 1) % m) n)

  -- Fewer than `m` steps round the ring do not come back to the start.
  pub past_ne : (h k : ℕ) → h < m → suc k < m → (h + suc k) % m ≢ h
  past_ne h k hh hk e = elim (dec_lt (h + suc k) m) [
    | yes p ↦ omega (arith, mod-eq_of_lt p)
    | no p ↦ omega (
      arith,
      mod-eq-sub-mod {n = h + suc k} {m = m} (omega arith),
      mod-eq_of_lt {n = h + suc k - m} {m = m} (omega arith),
    )
  ]

  pub step_in : (h n : ℕ) → (h + suc n) % m ≡ ((h + 1) % m + n) % m
  step_in h n = sym (mod-add-mod (h + 1) m n ∙ ap (λ k. k % m) (omega arith))

  -- A write just past the slots that are held appends to them.
  pub slots-set :
      (buf : List ℕ) (x n h i : ℕ)
      → length buf ≡ m
      → h < m
      → n < m
      → i ≡ (h + n) % m
      → slots (set buf i x) h (suc n) ≡ slots buf h n ++ (x ∷ [])
  slots-set buf x zero h i len hh hn e =
      let at : i ≡ h = e ∙ ap (λ k. k % m) (add-zero h) ∙ mod-eq_of_lt hh in
      ap₂ ◌∷◌ (ap (λ j. get_or (set buf j x) h 0) at ∙ get_or-set_self buf h x 0 (omega arith)) refl
  slots-set buf x (suc n) h i len hh hn e =
      ap₂ ◌∷◌ (get_or-set_ne buf i h x 0 (λ at. past_ne h n hh hn (sym e ∙ at))) (
        slots-set buf x n ((h + 1) % m) i len (mod-lt (h + 1) (omega arith)) (omega arith)
          (e ∙ step_in h n))

  -- The code tests a number where `slots` matches on `suc`.
  pub slots_ne_zero :
      (buf : List ℕ) (h n : ℕ)
      → n ≢ 0
      → slots buf h n ≡ get_or buf h 0 ∷ slots buf ((h + 1) % m) (n - 1)
  slots_ne_zero buf h zero p = absurd (p refl)
  slots_ne_zero buf h (suc n) p = ap (λ k. slots buf h (suc k)) (omega arith)

  -- The slots after the first `k`.
  pub drop-slots :
      (buf : List ℕ) (k n h : ℕ) → h < m → drop k (slots buf h (k + n)) ≡ slots buf ((h + k) % m) n
  drop-slots buf zero n h lt =
      ap₂ (slots buf) (sym (ap (λ j. j % m) (add-zero h) ∙ mod-eq_of_lt lt)) (omega arith)
  drop-slots buf (suc k) n h lt =
      ap (λ j. drop (suc k) (slots buf h j)) {x = suc k + n} {y = suc (k + n)} (omega arith)
      ∙ drop-slots buf k n ((h + 1) % m) (mod-lt (h + 1) (omega arith))
      ∙ ap (λ j. slots buf j n) (sym (step_in h k))
