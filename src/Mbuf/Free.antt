-- ===== src/Mbuf/Free.antt =====
-- `de_alloc_bulk` frees all the buffers that it is given.
use axio_emulator.Prelude.{refl, ◌∙◌, ℕ, zero, suc, ◌<◌, ◌≡◌, List, [], ◌∷◌, length, get_or, arith}
use axio_emulator.HugeAlloc.{free}
use axio_emulator.Mbuf.{Mem, set_state, de_alloc, de_alloc_bulk}

stays-free :
    (ps : List ℕ) (mem : Mem) (q : ℕ) → (mem q).state ≡ free → (de_alloc_bulk mem ps q).state ≡ free
unfolding de_alloc_bulk de_alloc set_state
stays-free [] mem q e = e
stays-free (p ∷ ps) mem q e = stays-free ps (de_alloc mem p) q (ground arith)

-- Each buffer of the list is in state `free` afterwards.
pub de_alloc_bulk-free :
    (ps : List ℕ) (mem : Mem) (i : ℕ)
    → i < length ps
    → (de_alloc_bulk mem ps (get_or ps i 0)).state ≡ free
unfolding de_alloc_bulk de_alloc set_state
de_alloc_bulk-free [] mem i lt = absurd (omega arith)
de_alloc_bulk-free (p ∷ ps) mem zero lt = stays-free ps (de_alloc mem p) p (ground arith)
de_alloc_bulk-free (p ∷ ps) mem (suc i) lt = de_alloc_bulk-free ps (de_alloc mem p) i (omega arith)

pub de_alloc_bulk-ws : (ps : List ℕ) (mem : Mem) (q : ℕ) → (de_alloc_bulk mem ps q).ws ≡ (mem q).ws
unfolding de_alloc_bulk de_alloc set_state
de_alloc_bulk-ws [] mem q = refl
de_alloc_bulk-ws (p ∷ ps) mem q = de_alloc_bulk-ws ps (de_alloc mem p) q ∙ ground arith
