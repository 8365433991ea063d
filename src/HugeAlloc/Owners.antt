-- ===== src/HugeAlloc/Owners.antt =====
-- Histories as a whole: nobody shares memory with another.
use axio_emulator.Prelude.{ℕ, ◌≡◌, refl, ◌∙◌, List, [], ◌∷◌, Option, none, some}
use axio_emulator.HugeAlloc.{Buffer}
use axio_emulator.HugeAlloc.Classes.{BsrLaw}
use axio_emulator.HugeAlloc.History.{Op, State, run, Sized, owners, IsSound, take, give}
use axio_emulator.HugeAlloc.Kept.{step-Kept}

-- With a `bsrl` that does what is documented for it, from a sound state (freelists sorted by class,
-- held buffers each of a class above the smallest, and address 0 owned by none), every history of allocations of 65
-- bytes to 8 MB and of frees of held buffers runs with no failed `assert` to a sound state, and each
-- address has as many owners, free or held, after it as before.
pub run-owners :
    (bsr : ℕ → ℕ) (os : List Op) (s : State)
    → BsrLaw bsr
    → Sized os
    → IsSound s
    → (t : State) × (run bsr s os ≡ some t) × IsSound t × ((a : ℕ) → owners a t ≡ owners a s)
unfolding run
run-owners bsr [] s law sized sound = (s, refl, sound, λ a. refl)
run-owners bsr (take size ∷ os) s law sized sound =
    let k = step-Kept bsr s (take size) law (sized.0, sized.1, tt) sound in
    let (t, e, sound', same) = run-owners bsr os k.after law sized.2 k.sound in
    (t, rw k.runs e, sound', λ a. same a ∙ k.same a)
run-owners bsr (give i ∷ os) s law sized sound =
    let k = step-Kept bsr s (give i) law tt sound in
    let (t, e, sound', same) = run-owners bsr os k.after law sized k.sound in
    (t, rw k.runs e, sound', λ a. same a ∙ k.same a)

abbrev pub or_else : Buffer → Option Buffer → Buffer
or_else b none = b
or_else b (some c) = c
