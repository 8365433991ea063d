-- ===== src/Dpdk/Echo.antt =====
-- `echo_handler` and `pkt_handler_server` (dpdk_pkt_handlers.cc). `tx_queue_idx_` is at most
-- kNumTxRingEntries, so the difference does not go below 0.
use axio_emulator.Prelude.{
  ℕ, ◌+◌, ◌-◌, ◌≤◌, min, ◌≡◌, refl, ◌∙◌, List, [], ◌∷◌, ◌++◌, length, set, take, drop, count, ltb,
  Bool-cases, inl, inr, ◌==◌, if◌then◌else◌, arith,
}
use axio_emulator.Dpdk.{Mbuf, Mem, write, ring_entries, Dispatcher}

-- The exchange of the IP addresses and of the MAC addresses.
unfoldable pub swap_addrs : Mbuf → Mbuf
swap_addrs m = record m {
  ip = record m.ip { daddr = m.ip.saddr; saddr = m.ip.daddr };
  eth = record m.eth { d_addr = m.eth.s_addr; s_addr = m.eth.d_addr };
}

-- The first loop, for the packets that are forwarded.
echo_loop : List ℕ → Dispatcher → Dispatcher
echo_loop [] d = d
echo_loop (p ∷ ps) d = echo_loop ps (record d {
  mem = write d.mem p (swap_addrs (d.mem p));
  tx_queue = set d.tx_queue d.tx_queue_idx p;
  tx_queue_idx = d.tx_queue_idx + 1;
})

-- `remain_tx_queue_size`.
abbrev pub echo_num : Dispatcher → ℕ
echo_num d =
    if ltb d.rx_queue_idx (ring_entries - d.tx_queue_idx)
    then d.rx_queue_idx
    else ring_entries - d.tx_queue_idx

-- The packets received.
abbrev pub received : Dispatcher → List ℕ
received d = take d.rx_queue_idx d.rx_queue

abbrev pub waiting : Dispatcher → List ℕ
waiting d = take d.tx_queue_idx d.tx_queue

unfoldable pub echo_handler : Dispatcher → Dispatcher × ℕ
unfolding echo_loop
echo_handler d =
    let d' = echo_loop (take (echo_num d) (received d)) d in
    (record d' { freed = d'.freed ++ drop (echo_num d) (received d); rx_queue_idx = 0 }, echo_num d)

-- `pkt_handler_type_t`, and the handler chosen at build time.
pub data PktHandler : Type 0 where
  rx_empty rx_echo : PktHandler

unfoldable pub pkt_handler_server : PktHandler → Dispatcher → Dispatcher × ℕ
pkt_handler_server rx_empty d = (d, 0)
pkt_handler_server rx_echo d = echo_handler d

-- `f` on the buffers of a list, one after the other.
unfoldable pub apply_all : (Mbuf → Mbuf) → List ℕ → Mem → Mem
apply_all f [] mem = mem
apply_all f (p ∷ ps) mem = apply_all f ps (write mem p (f (mem p)))

pub apply_all-append :
    (f : Mbuf → Mbuf) (ps qs : List ℕ) (mem : Mem)
    → apply_all f (ps ++ qs) mem ≡ apply_all f qs (apply_all f ps mem)
unfolding apply_all
apply_all-append f [] qs mem = refl
apply_all-append f (p ∷ ps) qs mem = apply_all-append f ps qs (write mem p (f (mem p)))

-- A buffer that is not in the list keeps its content.
pub apply_all_other :
    (f : Mbuf → Mbuf) (ps : List ℕ) (mem : Mem) (q : ℕ)
    → count q ps ≡ 0
    → apply_all f ps mem q ≡ mem q
unfolding apply_all
apply_all_other f [] mem q e = refl
apply_all_other f (p ∷ ps) mem q e =
    let rest = apply_all_other f ps (write mem p (f (mem p))) q (ground arith) in
    ground (arith, rest)

-- `f` is applied once to a buffer that is in the list once.
pub apply_all_once :
    (f : Mbuf → Mbuf) (ps : List ℕ) (mem : Mem) (q : ℕ)
    → count q ps ≡ 1
    → apply_all f ps mem q ≡ f (mem q)
unfolding apply_all
apply_all_once f [] mem q e = absurd (omega arith)
apply_all_once f (p ∷ ps) mem q e = elim (Bool-cases (p == q)) [
  | inl eq ↦
      let same : p ≡ q = ground arith in
      apply_all_other f ps (write mem p (f (mem p))) q (ground arith) ∙ ground (arith, same)
  | inr ne ↦ apply_all_once f ps (write mem p (f (mem p))) q (ground arith) ∙ ground arith
]

pub record IsDispatcher (d : Dispatcher) : Type 0 where
  pub storage : length d.tx_queue ≡ ring_entries
  pub tx_in : d.tx_queue_idx ≤ ring_entries
  pub rx_in : d.rx_queue_idx ≤ length d.rx_queue

record Echoed (ps : List ℕ) (d out : Dispatcher) : Type 0 where
  storage : length out.tx_queue ≡ length d.tx_queue
  idx : out.tx_queue_idx ≡ d.tx_queue_idx + length ps
  forwarded : waiting out ≡ waiting d ++ ps
  mem : out.mem ≡ apply_all swap_addrs ps d.mem
  freed : out.freed ≡ d.freed
  rx_queue : out.rx_queue ≡ d.rx_queue

pub record IsEcho (d out : Dispatcher) (n : ℕ) : Type 0 where
  pub valid : IsDispatcher out
  pub number : n ≡ min d.rx_queue_idx (ring_entries - d.tx_queue_idx)
  pub forwarded : waiting out ≡ waiting d ++ take n (received d)
  pub dropped : out.freed ≡ d.freed ++ drop n (received d)
  pub none_left : out.rx_queue_idx ≡ 0
  pub swapped : (p : ℕ) → count p (take n (received d)) ≡ 1 → out.mem p ≡ swap_addrs (d.mem p)
  pub kept : (p : ℕ) → count p (take n (received d)) ≡ 0 → out.mem p ≡ d.mem p
