-- ===== src/Roce/Tx/Examples.antt =====
-- A send ring with one send in flight and two buffers to flush.
use axio_emulator.Prelude.{
  ℕ, ◌≡◌, refl, List, [], ◌∷◌, some, set, replicate, length-set, length-replicate, ◌∙◌, arith,
}
use axio_emulator.HugeAlloc.{free}
use axio_emulator.Mbuf.{Mem}
use axio_emulator.Roce.{client, depth}
use axio_emulator.Roce.Tx.{TxRing, tx_burst, tx_flush}
use axio_emulator.Roce.Tx.Burst.{IsBurst, tx_burst-IsBurst}
use axio_emulator.Roce.Tx.Complete.{IsValid}
use axio_emulator.Roce.Tx.Flush.{IsProgress, done, poll, Flushed, tx_flush-Flushed}

abbrev memory : Mem
memory = λ p. record {
  length = 80;
  state = free;
  next = 0;
  udp = record { source = 0; dest = 0 };
  ws = record { workload_type = 1; segment_num = 1 };
  payload = [];
}

abbrev one_sent : TxRing
one_sent = record {
  send_head = 0;
  send_tail = 1;
  free_send_wr_num = 2047;
  sw_ring = set (replicate depth 0) 0 3;
  tx_queue = 4 ∷ 5 ∷ [];
  tx_queue_idx = 2;
  freed = [];
  sent = 3 ∷ [];
}

one_sent-IsValid : IsValid one_sent
one_sent-IsValid = record {
  storage = length-set (replicate depth 0) 0 3 ∙ length-replicate depth 0;
  head_in = omega arith;
  few = omega arith;
  tail_at = refl;
}

tx_burst_example :
    IsBurst client 1
      (4 ∷ 5 ∷ [])
      one_sent
      (tx_burst client 1 (4 ∷ 5 ∷ []) memory one_sent).1
      (tx_burst client 1 (4 ∷ 5 ∷ []) memory one_sent).2
tx_burst_example =
    tx_burst-IsBurst client 1 (4 ∷ 5 ∷ []) memory one_sent one_sent-IsValid (omega arith)

abbrev polls : List (ℕ → ℕ)
polls = (λ n. n) ∷ (λ n. n) ∷ []

polls-IsProgress : IsProgress polls
polls-IsProgress = poll (λ n. omega arith) (λ n ne. ne) (poll (λ n. omega arith) (λ n ne. ne) done)

tx_flush_example :
    (mem' : Mem) × (out : TxRing) × (tx_flush client polls memory one_sent ≡ some (mem', out, 2))
    × Flushed client (4 ∷ 5 ∷ []) one_sent out
    × (out.tx_queue_idx ≡ 0)
tx_flush_example =
    tx_flush-Flushed client polls memory one_sent polls-IsProgress (omega arith) one_sent-IsValid
