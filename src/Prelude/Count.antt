-- ===== src/Prelude/Count.antt =====
-- How often a number occurs in a list: what is neither lost nor doubled on its way through queues.
use Prim.Native.Nat.{ℕ, ◌+◌}
use mathlib.Core.Path.{◌≡◌, sym, ap, ◌∙◌}
use mathlib.Core.List.{List, [], ◌∷◌, ◌++◌}
use native.Mathlib.Omega.{arith}
use axio_emulator.Prelude.Tests.{◌==◌, if◌then◌else◌}
use axio_emulator.Prelude.Lists.{take, drop, take-append-drop}

abbrev pub count : ℕ → List ℕ → ℕ
count x [] = 0
count x (y ∷ ys) = (if y == x then 1 else 0) + count x ys

pub count-append : (x : ℕ) (ys zs : List ℕ) → count x (ys ++ zs) ≡ count x ys + count x zs
count-append x [] zs = omega arith
count-append x (y ∷ ys) zs = omega (arith, count-append x ys zs)

pub count-take-drop :
    (x n : ℕ) (ys : List ℕ) → count x (take n ys) + count x (drop n ys) ≡ count x ys
count-take-drop x n ys =
    sym (count-append x (take n ys) (drop n ys)) ∙ ap (count x) (take-append-drop n ys)
