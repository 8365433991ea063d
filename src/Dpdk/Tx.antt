-- ===== src/Dpdk/Tx.antt =====
-- `tx_flush`, `rx_burst`, `drain_rx_queue` and `free_rx_queue` (dpdk_dispatcher_dataplane.cc). What
-- `rte_eth_tx_burst` and `rte_eth_rx_burst` return is an argument: for each call the number of
-- packets accepted of `n`, or the packets received.
use mathlib.Core.List.{append_assoc, append-nil}
use axio_emulator.Prelude.{
  ℕ, zero, suc, ◌+◌, ◌≤◌, ◌≡◌, ◌≢◌, refl, sym, ap, ap₂, ◌∙◌, List, [], ◌∷◌, ◌++◌, Option, none,
  some, length, length-drop, length-take, set, take, drop, take-append-drop, take-set_next,
  length-set, arith,
}
use axio_emulator.Dpdk.{Dispatcher}
use axio_emulator.Dpdk.Echo.{IsDispatcher, received, waiting}

-- The `while`, for the packets still to send, and its `nb_tx`; `none` when the calls given do not
-- finish it.
flush_loop : List (ℕ → ℕ) → List ℕ → List ℕ → ℕ → Option (List ℕ × ℕ)
flush_loop calls [] sent nb_tx = some (sent, nb_tx)
flush_loop [] (m ∷ ms) sent nb_tx = none
flush_loop (f ∷ fs) (m ∷ ms) sent nb_tx =
    let n = f (length (m ∷ ms)) in
    flush_loop fs (drop n (m ∷ ms)) (sent ++ take n (m ∷ ms)) (nb_tx + n)

flushed : Dispatcher → Option (List ℕ × ℕ) → Option (Dispatcher × ℕ)
flushed d none = none
flushed d (some (sent, nb_tx)) = some (record d { sent = sent; tx_queue_idx = 0 }, nb_tx)

unfoldable pub tx_flush : List (ℕ → ℕ) → Dispatcher → Option (Dispatcher × ℕ)
unfolding flush_loop flushed
tx_flush calls d = flushed d (flush_loop calls (waiting d) d.sent 0)

-- The packets that a call receives are written from `rx_queue_idx_` on.
write_from : List ℕ → ℕ → List ℕ → List ℕ
write_from buf i [] = buf
write_from buf i (p ∷ ps) = write_from (set buf i p) (i + 1) ps

unfoldable pub rx_burst : List ℕ → Dispatcher → Dispatcher × ℕ
unfolding write_from
rx_burst ps d = (
  record d {
    rx_queue = write_from d.rx_queue d.rx_queue_idx ps;
    rx_queue_idx = d.rx_queue_idx + length ps;
  },
  length ps,
)

unfoldable pub free_rx_queue : Dispatcher → Dispatcher
free_rx_queue d = record d { freed = d.freed ++ received d; rx_queue_idx = 0 }

-- The calls until one receives nothing; `none` when each of those given receives something.
unfoldable pub drain_rx_queue : List (List ℕ) → Dispatcher → Option Dispatcher
drain_rx_queue [] d = none
drain_rx_queue ([] ∷ calls) d = some d
drain_rx_queue ((p ∷ ps) ∷ calls) d =
    drain_rx_queue calls (record d { freed = d.freed ++ (p ∷ ps) })

-- The NIC: no call accepts more than it is given, and `k` of the calls accept something.
pub data Accepts : ℕ → List (ℕ → ℕ) → Type 0 where
  stop : Accepts 0 []
  idle :
      {k : ℕ} {f : ℕ → ℕ} {fs : List (ℕ → ℕ)}
      → ((n : ℕ) → f n ≤ n)
      → Accepts k fs
      → Accepts k (f ∷ fs)
  busy :
      {k : ℕ} {f : ℕ → ℕ} {fs : List (ℕ → ℕ)}
      → ((n : ℕ) → f n ≤ n)
      → ((n : ℕ) → n ≢ 0 → f n ≢ 0)
      → Accepts k fs
      → Accepts (suc k) (f ∷ fs)

rejoin :
    (n nb_tx : ℕ) (ms sent : List ℕ)
    → n ≤ length ms
    → ◌≡◌ {A = Option (List ℕ × ℕ)}
        (some ((sent ++ take n ms) ++ drop n ms, nb_tx + n + length (drop n ms)))
        (some (sent ++ ms, nb_tx + length ms))
rejoin n nb_tx ms sent le =
    ap₂ (λ xs k. some (xs, k))
      (append_assoc sent (take n ms) (drop n ms) ∙ ap (λ xs. sent ++ xs) (take-append-drop n ms))
      (omega (arith, length-drop n ms))

flush_loop-all :
    (k : ℕ) (calls : List (ℕ → ℕ)) (ms sent : List ℕ) (nb_tx : ℕ)
    → Accepts k calls
    → length ms ≤ k
    → flush_loop calls ms sent nb_tx ≡ some (sent ++ ms, nb_tx + length ms)
unfolding flush_loop
flush_loop-all k calls [] sent nb_tx a le =
    ap₂ (λ xs n. some (xs, n)) (sym (append-nil sent)) (omega arith)
flush_loop-all zero [] (m ∷ ms) sent nb_tx stop le = absurd (omega arith)
flush_loop-all (suc k) [] (m ∷ ms) sent nb_tx a le = elim a [ ]
flush_loop-all k (f ∷ fs) (m ∷ ms) sent nb_tx (idle small a) le =
    let n = f (length (m ∷ ms)) in
    flush_loop-all k fs _ _ _ a (omega (arith, length-drop n (m ∷ ms)))
    ∙ rejoin n nb_tx (m ∷ ms) sent (small (length (m ∷ ms)))
flush_loop-all (suc k) (f ∷ fs) (m ∷ ms) sent nb_tx (busy small more a) le =
    let n = f (length (m ∷ ms)) in
    let some_sent = more (length (m ∷ ms)) (omega arith) in
    flush_loop-all k fs _ _ _ a (omega (arith, length-drop n (m ∷ ms), some_sent))
    ∙ rejoin n nb_tx (m ∷ ms) sent (small (length (m ∷ ms)))

-- When as many of the calls accept packets as there are packets that wait, the loop ends: all of
-- them are sent, once and in order, the queue is empty and the result is their number. Calls that
-- accept nothing in between do no harm.
pub tx_flush-all :
    (k : ℕ) (calls : List (ℕ → ℕ)) (d : Dispatcher)
    → Accepts k calls
    → d.tx_queue_idx ≤ k
    → tx_flush calls d
      ≡ some (record d { sent = d.sent ++ waiting d; tx_queue_idx = 0 }, length (waiting d))
unfolding tx_flush flushed
tx_flush-all k calls d a le = ap (flushed d) (
    flush_loop-all k calls (waiting d) d.sent 0 a
      (omega (arith, length-take d.tx_queue_idx d.tx_queue))
    ∙ ap (λ n. some (d.sent ++ waiting d, n)) (omega arith))

write_from-take :
    (buf : List ℕ) (i : ℕ) (ps : List ℕ)
    → i + length ps ≤ length buf
    → (take (i + length ps) (write_from buf i ps) ≡ take i buf ++ ps)
      × (length (write_from buf i ps) ≡ length buf)
unfolding write_from
write_from-take buf i [] le =
    (ap (λ n. take n buf) {x = i + 0} {y = i} (omega arith) ∙ sym (append-nil (take i buf)), refl)
write_from-take buf i (p ∷ ps) le =
    let len = length-set buf i p in
    let (taken, same) = write_from-take (set buf i p) (i + 1) ps (omega (arith, len)) in
    (
      ap (λ n. take n (write_from (set buf i p) (i + 1) ps)) {x = i + length (p ∷ ps)}
            {y = i + 1 + length ps} (omega arith)
          ∙ taken
          ∙ ap (λ xs. xs ++ ps) (take-set_next buf i p (omega arith))
          ∙ append_assoc (take i buf) (p ∷ []) ps,
      same ∙ len,
    )

-- The packets received are appended to the receive queue, when it has room for them; freeing the
-- queue then frees those of before and the new ones, in order, and leaves it empty.
pub free_rx_queue-rx_burst :
    (ps : List ℕ) (d : Dispatcher)
    → IsDispatcher d
    → d.rx_queue_idx + length ps ≤ length d.rx_queue
    → let out = (rx_burst ps d).0 in
      IsDispatcher out
      × (received out ≡ received d ++ ps)
      × ((free_rx_queue out).freed ≡ d.freed ++ (received d ++ ps))
      × ((free_rx_queue out).rx_queue_idx ≡ 0)
unfolding rx_burst free_rx_queue
free_rx_queue-rx_burst ps d v le =
    let (taken, same) = write_from-take d.rx_queue d.rx_queue_idx ps le in
    (
      record { storage = v.storage; tx_in = v.tx_in; rx_in = omega (arith, same) },
      taken,
      ap (λ xs. d.freed ++ xs) taken,
      refl,
    )
