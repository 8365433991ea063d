-- ===== src/Roce/Setup/Ready.antt =====
-- `init_recvs` and `init_mem_reg_funcs` as a whole: a receive ring over memory of its own.
use axio_emulator.Prelude.{
  ℕ, ◌+◌, ◌-◌, ◌≤◌, ◌<◌, ◌≡◌, refl, sym, ap, ◌∙◌, ◌≢◌, List, none, some, true, ◌==◌, if◌then◌else◌,
  arith,
}
use native.Mathlib.Decide.{ℕ_discrete}
use axio_emulator.HugeAlloc.{Buffer, posted}
use axio_emulator.Mbuf.{Mem}
use axio_emulator.Roce.{depth}
use axio_emulator.Roce.Connect.{RoceType, ud, rc}
use axio_emulator.Roce.Setup.{
  Answers, RecvWr, RecvRing, mbuf_size, ring_extent_size, next_of, chunk_offset, packet_room,
  recv_wr_at, no_recvs, set_next, chain, link_loop, post_ring, fill_ring,
}
use axio_emulator.Roce.Setup.Recvs.{
  IsListed, AreFresh, rx_buffer, init_recv_loop-IsFilled, ==_other,
}
use axio_emulator.Roce.Setup.Links.{
  IsChain, count_from, chain-count_from, link_loop-IsLinked, link_loop-state, length-set_next,
  set_next-here, set_next-other,
}

-- The receive ring before the first packet: the descriptors are numbered and lead around the ring,
-- as the Buffers do, which belong to the NIC; no two packets share memory, and all lie in the extent,
-- though the NIC is told of 24 bytes beyond it under UD.
pub record IsReady (type : RoceType) (fresh : ℕ → ℕ) (extent : Buffer) (r : RecvRing) : Type 0 where
  pub descriptors : IsListed (recv_wr_at type extent) depth r.recv_wr
  pub ring : IsListed fresh depth r.rx_ring
  pub buffers : (j : ℕ) → j < depth → r.placed (fresh j) ≡ rx_buffer type extent j
  pub posted_all : (j : ℕ) → j < depth → (r.mem (fresh j)).state ≡ posted
  pub linked : (j : ℕ) → j < depth → (r.mem (fresh j)).next ≡ fresh (next_of j)
  pub room :
      (i : ℕ)
      → i < depth
      → (extent.buf ≤ (recv_wr_at type extent i).addr)
        × ((recv_wr_at type extent i).addr + packet_room type ≤ extent.buf + ring_extent_size)
  pub apart :
      (i j : ℕ)
      → i < j
      → (recv_wr_at type extent i).addr + mbuf_size ≤ (recv_wr_at type extent j).addr
  pub told :
      (recv_wr_at type extent (depth - 1)).addr + mbuf_size
      ≡ extent.buf + ring_extent_size + chunk_offset type 0

room_of :
    (type : RoceType) (extent : Buffer) (i : ℕ)
    → i < depth
    → (extent.buf ≤ (recv_wr_at type extent i).addr)
      × ((recv_wr_at type extent i).addr + packet_room type ≤ extent.buf + ring_extent_size)
room_of ud extent i lt = (omega arith, omega arith)
room_of rc extent i lt = (omega arith, omega arith)

apart_of :
    (type : RoceType) (extent : Buffer) (i j : ℕ)
    → i < j
    → (recv_wr_at type extent i).addr + mbuf_size ≤ (recv_wr_at type extent j).addr
apart_of ud extent i j lt = omega arith
apart_of rc extent i j lt = omega arith

told_of :
    (type : RoceType) (extent : Buffer)
    → (recv_wr_at type extent (depth - 1)).addr + mbuf_size
      ≡ extent.buf + ring_extent_size + chunk_offset type 0
told_of ud extent = omega arith
told_of rc extent = omega arith

-- The descriptors while the ring is broken before its start.
abbrev broken_at : RoceType → Buffer → ℕ → RecvWr
broken_at type extent j =
    if j == depth - 1
    then record (recv_wr_at type extent j) { next = none }
    else recv_wr_at type extent j

broken_at-other :
    (type : RoceType) (extent : Buffer) (j : ℕ)
    → j ≢ depth - 1
    → broken_at type extent j ≡ recv_wr_at type extent j
broken_at-other type extent j ne = rw (==_other j (depth - 1) ne) refl

next_of-inner : (j : ℕ) → j + 1 < depth → next_of j ≡ j + 1
next_of-inner j lt = ground arith

module _ (type : RoceType) (extent : Buffer) (wrs : List RecvWr)
    (l : IsListed (recv_wr_at type extent) depth wrs) where
  abbrev broken : List RecvWr
  broken = set_next wrs (depth - 1) none

  broken-IsListed : IsListed (broken_at type extent) depth broken
  broken-IsListed = record {
    size = length-set_next (recv_wr_at type extent) depth wrs l (depth - 1) none (omega arith);
    at = λ j lt. elim (ℕ_discrete j (depth - 1)) [
      | yes e ↦
          rw e (set_next-here (recv_wr_at type extent) depth wrs l (depth - 1) none (omega arith))
      | no ne ↦
          set_next-other (recv_wr_at type extent) depth wrs l (depth - 1) j none (omega arith)
            (λ e. ne (sym e))
          ∙ l.at j lt
          ∙ ap some (sym (broken_at-other type extent j ne))
    ];
  }

  broken-IsChain : IsChain depth broken
  broken-IsChain = record {
    inner = λ j lt. (
      recv_wr_at type extent j,
      broken-IsListed.at j (omega arith)
          ∙ ap some (broken_at-other type extent j (λ e. absurd (omega arith))),
      refl,
      ap some (next_of-inner j lt),
    );
    last = λ j e.
        let at : j ≡ depth - 1 = omega arith in
        (
          broken_at type extent (depth - 1),
          rw at (broken-IsListed.at (depth - 1) (omega arith)),
          sym at,
          refl,
        );
  }

  -- The circle is closed again as it was.
  closed-IsListed : IsListed (recv_wr_at type extent) depth (set_next broken (depth - 1) (some 0))
  closed-IsListed =
      let b = broken-IsListed in
      record {
        size =
            length-set_next (broken_at type extent) depth broken b (depth - 1) (some 0)
              (omega arith);
        at = λ j lt. elim (ℕ_discrete j (depth - 1)) [
          | yes e ↦ rw e (
              set_next-here (broken_at type extent) depth broken b (depth - 1) (some 0)
                (omega arith))
          | no ne ↦
              set_next-other (broken_at type extent) depth broken b (depth - 1) j (some 0)
                (omega arith) (λ e. ne (sym e))
              ∙ b.at j lt
              ∙ ap some (broken_at-other type extent j ne)
        ];
      }

-- The answers of a library of verbs that takes what it is given, when it is the whole ring in order.
pub record IsTaken (answers : Answers) : Type 0 where
  pub taken : answers.posts (count_from depth 0) ≡ true
  pub new : AreFresh answers.fresh

-- What `init_recvs` does with an extent.
pub fill_ring-IsReady :
    (type : RoceType) (answers : Answers) (extent : Buffer) (placed : ℕ → Buffer) (mem : Mem)
    → IsTaken answers
    → (r : RecvRing) × (fill_ring type answers extent (no_recvs placed mem) ≡ some r)
      × IsReady type answers.fresh extent r
unfolding fill_ring post_ring
fill_ring-IsReady type answers extent placed mem t =
    let (r, runs, f) =
      init_recv_loop-IsFilled type answers.fresh extent depth 0 (no_recvs placed mem) t.new refl
        (record {
          descriptors = record { size = refl; at = λ j lt. absurd (omega arith) };
          ring = record { size = refl; at = λ j lt. absurd (omega arith) };
          buffers = λ j lt. absurd (omega arith);
          posted_all = λ j lt. absurd (omega arith);
        }) in
    let order : chain depth (broken type extent r.recv_wr f.descriptors) 0 ≡ count_from depth 0 =
      chain-count_from depth 0 depth _ (broken-IsChain type extent r.recv_wr f.descriptors)
        (omega arith) refl in
    (
      record r {
        recv_wr = set_next (broken type extent r.recv_wr f.descriptors) (depth - 1) (some 0);
        mem = link_loop answers.fresh depth 0 r.mem;
      },
      rw (runs, order, t.taken) refl,
      record {
        descriptors = closed-IsListed type extent r.recv_wr f.descriptors;
        ring = f.ring;
        buffers = f.buffers;
        posted_all = λ j lt.
            link_loop-state answers.fresh depth 0 r.mem (answers.fresh j) ∙ f.posted_all j lt;
        linked = λ j lt.
            link_loop-IsLinked answers.fresh depth 0 r.mem t.new (λ i lo hi. absurd (omega arith)) j
              (omega arith) lt;
        room = room_of type extent;
        apart = apart_of type extent;
        told = told_of type extent;
      },
    )
