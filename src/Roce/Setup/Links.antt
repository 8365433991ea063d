-- ===== src/Roce/Setup/Links.antt =====
-- The links of the receive ring: the circle of Buffers, and the chain that the NIC is given.
use native.Mathlib.Decide.{ℕ_discrete}
use native.Mathlib.Nat.{add-zero}
use axio_emulator.Prelude.{
  ℕ, zero, suc, ◌+◌, ◌≤◌, ◌<◌, ◌≡◌, refl, sym, ap, ◌∙◌, ◌≢◌, List, [], ◌∷◌, Option, none, some,
  length, length-set, get_elem?, set, arith,
}
use axio_emulator.Mbuf.{Mem, write}
use axio_emulator.Roce.Setup.{RecvWr, next_of, link_loop, set_next, chain, init_sends}
use axio_emulator.Roce.Setup.Recvs.{
  IsListed, AreFresh, ==_same, ==_other, get_elem?-set_same, get_elem?-set_ne,
}

-- The Buffers from `lo` up to `hi` lead to their successors in the ring.
abbrev pub IsLinked : (ℕ → ℕ) → ℕ → ℕ → Mem → Type 0
IsLinked fresh lo hi mem = (j : ℕ) → lo ≤ j → j < hi → (mem (fresh j)).next ≡ fresh (next_of j)

write-next :
    (fresh : ℕ → ℕ) (n j to : ℕ) (mem : Mem)
    → AreFresh fresh
    → j ≢ n
    → (write mem (fresh n) (record (mem (fresh n)) { next = to }) (fresh j)).next
      ≡ (mem (fresh j)).next
write-next fresh n j to mem new ne = rw (==_other (fresh j) (fresh n) (λ e. ne (new j n e))) refl

pub link_loop-IsLinked :
    (fresh : ℕ → ℕ) (left n : ℕ) (mem : Mem)
    → AreFresh fresh
    → IsLinked fresh 0 n mem
    → IsLinked fresh 0 (n + left) (link_loop fresh left n mem)
unfolding link_loop
link_loop-IsLinked fresh zero n mem new l = λ j lo lt. l j lo (omega arith)
link_loop-IsLinked fresh (suc left) n mem new l = λ j lo lt.
    link_loop-IsLinked fresh left (n + 1) _ new
      (λ i up below. elim (ℕ_discrete i n) [
        | yes e ↦ rw (e, ==_same (fresh n)) refl
        | no ne ↦ write-next fresh n i (fresh (next_of n)) mem new ne ∙ l i up (omega arith)
      ])
      j lo (omega arith)

pub link_loop-state :
    (fresh : ℕ → ℕ) (left n : ℕ) (mem : Mem) (p : ℕ)
    → (link_loop fresh left n mem p).state ≡ (mem p).state
unfolding link_loop
link_loop-state fresh zero n mem p = refl
link_loop-state fresh (suc left) n mem p = link_loop-state fresh left (n + 1) _ p ∙ kept
  where
    kept :
        (write mem (fresh n) (record (mem (fresh n)) { next = fresh (next_of n) }) p).state
        ≡ (mem p).state
    kept = elim (ℕ_discrete p (fresh n)) [
      | yes e ↦ rw (e, ==_same (fresh n)) refl
      | no ne ↦ rw (==_other p (fresh n) ne) refl
    ]

-- The numbers from `i` on.
abbrev pub count_from : ℕ → ℕ → List ℕ
count_from zero i = []
count_from (suc n) i = i ∷ count_from n (i + 1)

-- Descriptors that are numbered, and each of which but the last leads to the next.
pub record IsChain (n : ℕ) (wrs : List RecvWr) : Type 0 where
  pub inner :
      (j : ℕ)
      → j + 1 < n
      → (wr : RecvWr) × (get_elem? wrs j ≡ some wr) × (wr.wr_id ≡ j) × (wr.next ≡ some (j + 1))
  pub last :
      (j : ℕ)
      → j + 1 ≡ n
      → (wr : RecvWr) × (get_elem? wrs j ≡ some wr) × (wr.wr_id ≡ j) × (wr.next ≡ none)

pub chain-count_from :
    (fuel i n : ℕ) (wrs : List RecvWr)
    → IsChain n wrs
    → 0 < fuel
    → i + fuel ≡ n
    → chain fuel wrs i ≡ count_from fuel i
unfolding chain
chain-count_from zero i n wrs c pos e = absurd (omega arith)
chain-count_from (suc zero) i n wrs c pos e =
    let (wr, there, id, stop) = c.last i (omega arith) in rw (there, chain, stop, id) refl
chain-count_from (suc (suc fuel)) i n wrs c pos e =
    let (wr, there, id, next) = c.inner i (omega arith) in
    rw (there, chain, next, id)
      (ap (◌∷◌ i) (chain-count_from (suc fuel) (i + 1) n wrs c (omega arith) (omega arith)))

module _ (f : ℕ → RecvWr) (n : ℕ) (wrs : List RecvWr) (l : IsListed f n wrs) where
  set_next-set :
      (i : ℕ) (to : Option ℕ) → i < n → set_next wrs i to ≡ set wrs i (record (f i) { next = to })
  unfolding set_next
  set_next-set i to lt = rw (l.at i lt, set_next) refl

  pub length-set_next : (i : ℕ) (to : Option ℕ) → i < n → length (set_next wrs i to) ≡ n
  length-set_next i to lt = ap length (set_next-set i to lt) ∙ length-set wrs i _ ∙ l.size

  pub set_next-here :
      (i : ℕ) (to : Option ℕ)
      → i < n
      → get_elem? (set_next wrs i to) i ≡ some (record (f i) { next = to })
  set_next-here i to lt =
      ap (λ ws. get_elem? ws i) (set_next-set i to lt)
      ∙ get_elem?-set_same wrs i _ (omega (arith, l.size))

  pub set_next-other :
      (i j : ℕ) (to : Option ℕ) → i < n → i ≢ j → get_elem? (set_next wrs i to) j ≡ get_elem? wrs j
  set_next-other i j to lt ne =
      ap (λ ws. get_elem? ws j) (set_next-set i to lt) ∙ get_elem?-set_ne wrs i j _ ne

-- The send descriptors: each has an entry of `send_sgl` of its own, and they lead around the ring.
init_sends-at :
    (left i j : ℕ)
    → j < left
    → get_elem? (init_sends left i) j
      ≡ some (record { sg_list = i + j; num_sge = 1; next = next_of (i + j) })
unfolding init_sends
init_sends-at zero i j lt = absurd (omega arith)
init_sends-at (suc left) i zero lt =
    ap (λ k. some (record { sg_list = k; num_sge = 1; next = next_of k })) (sym (add-zero i))
init_sends-at (suc left) i (suc j) lt =
    init_sends-at left (i + 1) j (omega arith)
    ∙ ap (λ k. some (record { sg_list = k; num_sge = 1; next = next_of k })) next
  where
    next : i + 1 + j ≡ i + suc j
    next = omega arith
