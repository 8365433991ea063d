-- ===== src/Queue/Bulk.antt =====
-- The two loops over a queue that the datapath runs: `enqueue` of every packet of an array, where a
-- packet that does not fit is dropped (generate_pkts in src/workspace.h, msg_handler_server in
-- src/ws_impl/msg_handlers.cc), and a fixed number of `dequeue`s (app_handler, collect_tx_pkts).
use axio_emulator.Prelude.{
  ℕ, zero, suc, ◌-◌, ◌≤◌, ◌<◌, ◌≡◌, refl, sym, ap, ◌∙◌, ap₂, List, [], ◌∷◌, ◌++◌, true, false,
  length, length-append, take, drop, if◌then◌else◌, arith,
}
use native.Mathlib.Decide.{dec_lt}
use mathlib.Core.List.{append_assoc, append-nil}
use axio_emulator.Queue.{LockFreeQueue, enqueue, dequeue}
use axio_emulator.Queue.Refine.{
  IsValid, contents, capacity, fifo_enqueue, fifo_dequeue, enqueue_refines, dequeue_refines,
  enqueue-IsValid, dequeue-IsValid,
}

-- The queue afterwards, and the packets that were dropped.
pub enqueue_all : LockFreeQueue → List ℕ → LockFreeQueue × List ℕ
enqueue_all q [] = (q, [])
enqueue_all q (p ∷ ps) =
    let (fits, q') = enqueue q p in
    let (q'', dropped) = enqueue_all q' ps in (q'', if fits then dropped else p ∷ dropped)

unfoldable pub dequeue_n : ℕ → LockFreeQueue → List ℕ × LockFreeQueue
dequeue_n zero q = ([], q)
dequeue_n (suc n) q = let (p, q') = dequeue q in let (ps, q'') = dequeue_n n q' in (p ∷ ps, q'')

take-all {ℓ} : {A : Type ℓ} (n : ℕ) (xs : List A) → length xs ≤ n → take n xs ≡ xs
take-all zero [] h = refl
take-all zero (x ∷ xs) h = absurd (omega arith)
take-all (suc n) [] h = refl
take-all (suc n) (x ∷ xs) h = ap (◌∷◌ x) (take-all n xs (omega arith))

take_pos {ℓ} :
    {A : Type ℓ} (n : ℕ) (x : A) (xs : List A) → 0 < n → take n (x ∷ xs) ≡ x ∷ take (n - 1) xs
take_pos zero x xs h = absurd (omega arith)
take_pos (suc n) x xs h = ap (λ k. x ∷ take k xs) (omega arith)

drop_pos {ℓ} :
    {A : Type ℓ} (n : ℕ) (x : A) (xs : List A) → 0 < n → drop n (x ∷ xs) ≡ drop (n - 1) xs
drop_pos zero x xs h = absurd (omega arith)
drop_pos (suc n) x xs h = ap (λ k. drop k xs) (omega arith)

take_none {ℓ} : {A : Type ℓ} (n : ℕ) → take {A = A} n [] ≡ []
take_none zero = refl
take_none (suc n) = refl

drop_none {ℓ} : {A : Type ℓ} (n : ℕ) → drop {A = A} n [] ≡ []
drop_none zero = refl
drop_none (suc n) = refl

-- The room that a queue has left.
abbrev pub room : LockFreeQueue → ℕ
room q = capacity - length (contents q)

pub enqueue_room :
    {q : LockFreeQueue} (p : ℕ)
    → IsValid q
    → 0 < room q
    → ((enqueue q p).0 ≡ true) × (contents (enqueue q p).1 ≡ contents q ++ (p ∷ []))
unfolding fifo_enqueue
enqueue_room {q} p v h = let e = enqueue_refines p v in ground (arith, e)

pub enqueue_no_room :
    {q : LockFreeQueue} (p : ℕ)
    → IsValid q
    → room q ≡ 0
    → ((enqueue q p).0 ≡ false) × (contents (enqueue q p).1 ≡ contents q)
unfolding fifo_enqueue
enqueue_no_room {q} p v h = let e = enqueue_refines p v in ground (arith, e)

pub record Inserted (q : LockFreeQueue) (ps : List ℕ) (out : LockFreeQueue × List ℕ) : Type 0 where
  pub valid : IsValid out.0
  pub held : contents out.0 ≡ contents q ++ take (room q) ps
  pub dropped : out.1 ≡ drop (room q) ps

-- The loop fills the queue with the packets in order, and drops those that come after it is full.
pub enqueue_all-Inserted :
    (ps : List ℕ) {q : LockFreeQueue} → IsValid q → Inserted q ps (enqueue_all q ps)
unfolding enqueue_all
enqueue_all-Inserted [] {q} v = record {
  valid = v;
  held = rw (take_none (room q)) (sym (append-nil (contents q)));
  dropped = sym (drop_none (room q));
}
enqueue_all-Inserted (p ∷ ps) {q} v = elim (dec_lt 0 (room q)) [
  | yes free ↦
      let (fits, more) = enqueue_room p v free in
      let rest = enqueue_all-Inserted ps (enqueue-IsValid p v) in
      let less : room (enqueue q p).1 ≡ room q - 1 =
        omega (arith, ap length more, length-append (contents q) (p ∷ [])) in
      record {
        valid = rest.valid;
        held =
            rest.held
            ∙ ap₂ (λ xs k. xs ++ take k ps) more less
            ∙ append_assoc (contents q) (p ∷ []) (take (room q - 1) ps)
            ∙ ap (◌++◌ (contents q)) (sym (take_pos (room q) p ps free));
        dropped =
            rw fits (rest.dropped ∙ ap (λ k. drop k ps) less ∙ sym (drop_pos (room q) p ps free));
      }
  | no full ↦
      let none_left : room q ≡ 0 = omega arith in
      let (refused, same) = enqueue_no_room p v none_left in
      let rest = enqueue_all-Inserted ps (enqueue-IsValid p v) in
      let still : room (enqueue q p).1 ≡ 0 = omega (arith, ap length same) in
      record {
        valid = rest.valid;
        held =
            rest.held
            ∙ ap₂ (λ xs k. xs ++ take k ps) same still
            ∙ ap (λ k. contents q ++ take k (p ∷ ps)) (sym none_left);
        dropped = rw refused (
            ap (◌∷◌ p) (rest.dropped ∙ ap (λ k. drop k ps) still)
            ∙ ap (λ k. drop k (p ∷ ps)) (sym none_left));
      }
]

-- One `dequeue` from a queue that is not empty splits off the oldest packet.
pub dequeue_some :
    {q : LockFreeQueue}
    → IsValid q
    → 0 < length (contents q)
    → contents q ≡ (dequeue q).0 ∷ contents (dequeue q).1
unfolding fifo_dequeue
dequeue_some {q} v h = let e = dequeue_refines v in grind (arith, e)

-- Taking no more than there is takes the oldest packets, in order.
pub dequeue_n_lem :
    (n : ℕ) {q : LockFreeQueue}
    → IsValid q
    → n ≤ length (contents q)
    → ((dequeue_n n q).0 ≡ take n (contents q))
      × (contents (dequeue_n n q).1 ≡ drop n (contents q))
      × IsValid (dequeue_n n q).1
unfolding dequeue_n
dequeue_n_lem zero v h = (refl, refl, v)
dequeue_n_lem (suc n) {q} v h =
    let e = dequeue_some v (omega arith) in
    let (taken, rest, valid) =
      dequeue_n_lem n {q = (dequeue q).1} (dequeue-IsValid v) (omega (arith, ap length e)) in
    (
      ap (◌∷◌ (dequeue q).0) taken ∙ ap (take (suc n)) (sym e),
      rest ∙ ap (drop (suc n)) (sym e),
      valid,
    )
