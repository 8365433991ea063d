-- ===== src/Roce/Tx/Flush.antt =====
-- `tx_flush` posts all that is waiting, and returns once the NIC goes on completing sends.
use mathlib.Core.List.{append_assoc, append-nil}
use axio_emulator.Prelude.{
  ℕ, ◌+◌, ◌-◌, ◌≤◌, ◌≡◌, refl, sym, ap, ap₂, ◌∙◌, ◌≢◌, List, [], ◌∷◌, ◌++◌, some, length, take,
  drop, length-drop, length-take, take-append-drop, arith,
}
use axio_emulator.Mbuf.{Mem}
use axio_emulator.Roce.{Node, client, server, depth}
use axio_emulator.Roce.Tx.{TxRing, tx_burst, flush_loop, finish, tx_flush}
use axio_emulator.Roce.Tx.Burst.{IsBurst, tx_burst-IsBurst}
use axio_emulator.Roce.Tx.Complete.{IsValid, in_flight, all_freed}

-- The NIC: no poll returns more completions than there are sends in flight, and one with sends in
-- flight returns at least one.
pub data IsProgress : List (ℕ → ℕ) → Type 0 where
  done : IsProgress []
  poll :
      {f : ℕ → ℕ} {fs : List (ℕ → ℕ)}
      → ((n : ℕ) → f n ≤ n)
      → ((n : ℕ) → n ≢ 0 → f n ≢ 0)
      → IsProgress fs
      → IsProgress (f ∷ fs)

-- All the buffers that have left the queue, freed or not, in the order in which they were sent.
abbrev pub account : Node → TxRing → List ℕ
account node tx = all_freed node tx.freed (in_flight tx)

all_freed-append :
    (node : Node) (fs xs ys : List ℕ)
    → all_freed node (all_freed node fs xs) ys ≡ all_freed node fs (xs ++ ys)
all_freed-append client fs xs ys = append_assoc fs xs ys
all_freed-append server fs xs ys = refl

burst-account :
    (node : Node) (ret : ℕ) (bufs : List ℕ) (tx out : TxRing) (n : ℕ)
    → IsBurst node ret bufs tx out n
    → account node out ≡ all_freed node (account node tx) (take n bufs)
burst-account node ret bufs tx out n b =
    ap₂ (all_freed node) b.freed b.ring
    ∙ all_freed-append node tx.freed (take ret (in_flight tx)) _
    ∙ ap (all_freed node tx.freed) (
        sym (append_assoc (take ret (in_flight tx)) (drop ret (in_flight tx)) (take n bufs))
        ∙ ap (λ xs. xs ++ take n bufs) (take-append-drop ret (in_flight tx)))
    ∙ sym (all_freed-append node tx.freed (in_flight tx) (take n bufs))

pub record Flushed (node : Node) (bufs : List ℕ) (tx out : TxRing) : Type 0 where
  pub valid : IsValid out
  pub sent : out.sent ≡ tx.sent ++ bufs
  pub account_of : account node out ≡ all_freed node (account node tx) bufs

all_freed-none : (node : Node) (fs : List ℕ) → fs ≡ all_freed node fs []
all_freed-none client fs = sym (append-nil fs)
all_freed-none server fs = refl

Flushed-step :
    (node : Node) (ret : ℕ) (bufs : List ℕ) (tx mid out : TxRing) (n : ℕ)
    → IsBurst node ret bufs tx mid n
    → Flushed node (drop n bufs) mid out
    → Flushed node bufs tx out
Flushed-step node ret bufs tx mid out n b f = record {
  valid = f.valid;
  sent =
      f.sent
      ∙ ap (λ xs. xs ++ drop n bufs) b.sent
      ∙ append_assoc tx.sent (take n bufs) (drop n bufs)
      ∙ ap (λ xs. tx.sent ++ xs) (take-append-drop n bufs);
  account_of =
      f.account_of
      ∙ ap (λ xs. all_freed node xs (drop n bufs)) (burst-account node ret bufs tx mid n b)
      ∙ all_freed-append node (account node tx) (take n bufs) (drop n bufs)
      ∙ ap (all_freed node (account node tx)) (take-append-drop n bufs);
}

flush_loop-Flushed :
    (node : Node) (polls : List (ℕ → ℕ)) (bufs : List ℕ) (mem : Mem) (tx : TxRing) (tx_total : ℕ)
    → IsProgress polls
    → length bufs ≤ length polls
    → IsValid tx
    → (mem' : Mem) × (out : TxRing) × (flush_loop node polls bufs mem tx tx_total
        ≡ some (mem', out, tx_total + length bufs))
      × Flushed node bufs tx out
unfolding flush_loop
flush_loop-Flushed node polls [] mem tx tx_total p le v = (
  mem,
  tx,
  ap (λ k. some (mem, tx, k)) (omega arith),
  record {
    valid = v;
    sent = sym (append-nil tx.sent);
    account_of = all_freed-none node (account node tx);
  },
)
flush_loop-Flushed node [] (m ∷ ms) mem tx tx_total p le v = absurd (omega arith)
flush_loop-Flushed node (f ∷ fs) (m ∷ ms) mem tx tx_total (poll small some_done p) le v =
    let flying = depth - tx.free_send_wr_num in
    let (mem', mid, n) = tx_burst node (f flying) (m ∷ ms) mem tx in
    let b = tx_burst-IsBurst node (f flying) (m ∷ ms) mem tx v (small flying) in
    let room : tx.free_send_wr_num + f flying ≢ 0 =
      λ e. some_done flying (omega arith) (omega arith) in
    let rest = length-drop n (m ∷ ms) in
    let (mem'', out, runs, flushed) =
      flush_loop-Flushed node fs (drop n (m ∷ ms)) mem' mid (tx_total + n) p
        (omega (arith, rest, b.count, le)) b.valid in
    let total : tx_total + n + length (drop n (m ∷ ms)) ≡ tx_total + length (m ∷ ms) =
      omega (arith, rest, b.count) in
    (
      mem'',
      out,
      runs ∙ ap (λ k. some (mem'', out, k)) total,
      Flushed-step node (f flying) (m ∷ ms) tx mid out n b flushed,
    )

-- The queue that waits is sent whole, in order, and is empty afterwards: the loop ends when the
-- NIC makes progress in each poll, which takes at most one poll for each buffer. The buffers sent
-- follow, in the same order, those already freed or in flight; the result is their number.
pub tx_flush-Flushed :
    (node : Node) (polls : List (ℕ → ℕ)) (mem : Mem) (tx : TxRing)
    → IsProgress polls
    → tx.tx_queue_idx ≤ length polls
    → IsValid tx
    → (mem' : Mem) × (out : TxRing) × (tx_flush node polls mem tx
        ≡ some (mem', out, length (take tx.tx_queue_idx tx.tx_queue)))
      × Flushed node (take tx.tx_queue_idx tx.tx_queue) tx out
      × (out.tx_queue_idx ≡ 0)
unfolding tx_flush
tx_flush-Flushed node polls mem tx p le v =
    let waiting = take tx.tx_queue_idx tx.tx_queue in
    let (mem', out, runs, f) =
      flush_loop-Flushed node polls waiting mem tx 0 p
        (omega (arith, length-take tx.tx_queue_idx tx.tx_queue)) v in
    (
      mem',
      record out { tx_queue_idx = 0 },
      ap finish (runs ∙ ap (λ k. some (mem', out, k)) (omega arith)),
      record {
        valid = record {
          storage = f.valid.storage;
          head_in = f.valid.head_in;
          few = f.valid.few;
          tail_at = f.valid.tail_at;
        };
        sent = f.sent;
        account_of = f.account_of;
      },
      refl,
    )
