-- ===== src/Roce/Setup.antt =====
-- src/dispatcher_impl/roce/roce_dispatcher.cc: the memory of packets, `roce_mbuf_alloc`,
-- `roce_mbuf_alloc_bulk`, `init_mem_reg_funcs`, `init_recvs` and `init_sends`. A failed `assert` or
-- `rt_assert`, an exception and an access through `nullptr` are `none`. The raw memory, its
-- registration, the addresses that `new` gives, and whether the library of verbs takes the chain of
-- descriptors are arguments.
pub mod Bulk
pub mod Recvs
pub mod Links
pub mod Ready
pub mod Registered
mod Examples
use axio_emulator.Prelude.{
  ℕ, zero, suc, ◌+◌, ◌-◌, ◌*◌, List, [], ◌∷◌, ◌++◌, Bool, true, false, Option, none, some,
  get_elem?, set, ltb, leb, ◌==◌, if◌then◌else◌,
}
use axio_emulator.HugeAlloc.{
  Buffer, BufferState, posted, HugeAlloc, new_buffer, max_class_size, update, alloc, free_buf,
  add_raw_buffer,
}
use axio_emulator.Mbuf.{Mem, Mbuf, write}
use axio_emulator.Roce.{depth}
use axio_emulator.Roce.Connect.{RoceType, ud, rc, mtu, ◌>>=◌}

-- `kMbufSize`, `kGRHBytes`, `kMemRegionSize` and `ring_extent_size`.
abbrev pub mbuf_size : ℕ
mbuf_size = 4096

abbrev pub grh_bytes : ℕ
grh_bytes = 40

abbrev pub mem_region_size : ℕ
mem_region_size = 8192 * mbuf_size

abbrev pub ring_extent_size : ℕ
ring_extent_size = depth * mbuf_size

module _ (bsr : ℕ → ℕ) where
  unfoldable pub mbuf_alloc : HugeAlloc → Option (Option Buffer × HugeAlloc)
  mbuf_alloc h = alloc bsr h mbuf_size

  -- The loop that gives back what was allocated.
  unfoldable pub free_all : HugeAlloc → List Buffer → Option HugeAlloc
  free_all h [] = some h
  free_all h (b ∷ bs) = do h' ← free_buf bsr h b; free_all h' bs

  -- The loop of `roce_mbuf_alloc_bulk`, with `left` buffers to come: the code that it returns, the
  -- buffers, and the allocator. `mbufs[i]->buf_` is read before it is known that there is a buffer.
  unfoldable pub alloc_bulk_loop :
      ℕ → List Buffer → HugeAlloc → Option (ℕ × List Buffer × HugeAlloc)
  alloc_bulk_loop zero got h = some (0, got, h)
  alloc_bulk_loop (suc left) got h = do
    (r, h') ← mbuf_alloc h
    b ← r
    (let rest = alloc_bulk_loop left (got ++ (b ∷ [])) h' in
        if b.buf == 0 then (do h'' ← free_all h' got; some (255, got ++ (b ∷ []), h'')) else rest)

  unfoldable pub mbuf_alloc_bulk : HugeAlloc → ℕ → Option (ℕ × List Buffer × HugeAlloc)
  mbuf_alloc_bulk h num = alloc_bulk_loop num [] h

-- `recv_sgl[i]` with `recv_wr[i]`; `next` is an index of `recv_wr`.
pub record RecvWr : Type 0 where
  pub addr : ℕ
  pub length : ℕ
  pub lkey : ℕ
  pub wr_id : ℕ
  pub next : Option ℕ

-- `send_wr[i]`, with the index of its entry in `send_sgl`.
pub record SendWr : Type 0 where
  pub sg_list : ℕ
  pub num_sge : ℕ
  pub next : ℕ

-- The next index of a ring, as the descriptors link it.
abbrev pub next_of : ℕ → ℕ
next_of i = if ltb i (depth - 1) then i + 1 else 0

-- Where a chunk starts for the NIC, what the `assert` wants room for, and where a packet starts.
abbrev pub chunk_offset : RoceType → ℕ → ℕ
chunk_offset ud i = i * mbuf_size + (64 - grh_bytes)
chunk_offset rc i = i * mbuf_size

abbrev pub packet_room : RoceType → ℕ
packet_room ud = grh_bytes + mtu
packet_room rc = mtu

abbrev pub packet_offset : RoceType → ℕ → ℕ
packet_offset ud i = chunk_offset ud i + grh_bytes
packet_offset rc i = chunk_offset rc i

-- The receive ring: `placed` tells what memory a Buffer has, and `mem` its state and its `next_`.
pub record RecvRing : Type 0 where
  pub recv_wr : List RecvWr
  pub rx_ring : List ℕ
  pub placed : ℕ → Buffer
  pub mem : Mem

abbrev pub recv_wr_at : RoceType → Buffer → ℕ → RecvWr
recv_wr_at type extent i = record {
  addr = extent.buf + chunk_offset type i;
  length = mbuf_size;
  lkey = extent.lkey;
  wr_id = i;
  next = some (next_of i);
}

module _ (type : RoceType) (fresh : ℕ → ℕ) where
  -- A turn of the first loop; `fresh i` is the Buffer that its `new` makes.
  unfoldable pub init_recv : Buffer → ℕ → RecvRing → RecvRing
  init_recv extent i r =
      let b = new_buffer (extent.buf + packet_offset type i) mbuf_size extent.lkey in
      let m = r.mem (fresh i) in
      record {
        recv_wr = r.recv_wr ++ (recv_wr_at type extent i ∷ []);
        rx_ring = r.rx_ring ++ (fresh i ∷ []);
        placed = update r.placed (fresh i) (record b { state = posted });
        mem = write r.mem (fresh i) (record m { state = posted; length = 0 });
      }

  -- The first loop, from `i` on, with its `assert`.
  unfoldable pub init_recv_loop : Buffer → ℕ → ℕ → RecvRing → Option RecvRing
  init_recv_loop extent zero i r = some r
  init_recv_loop extent (suc left) i r =
      let rest = init_recv_loop extent left (i + 1) (init_recv extent i r) in
      if leb (chunk_offset type i + packet_room type) ring_extent_size then rest else none

-- The second loop: the Buffers are linked in a circle.
unfoldable pub link_loop : (ℕ → ℕ) → ℕ → ℕ → Mem → Mem
link_loop fresh zero i mem = mem
link_loop fresh (suc left) i mem =
    let m = mem (fresh i) in
    link_loop fresh left (i + 1) (write mem (fresh i) (record m { next = fresh (next_of i) }))

-- `recv_wr[i].next = n`.
unfoldable pub set_next : List RecvWr → ℕ → Option ℕ → List RecvWr
set_next wrs i n = elim (get_elem? wrs i) [
  | none ↦ wrs
  | some wr ↦ set wrs i (record wr { next = n })
]

-- The `wr_id`s of the chain of descriptors from `i` on, of at most as many as the first argument.
unfoldable pub chain : ℕ → List RecvWr → ℕ → List ℕ
chain zero wrs i = []
chain (suc fuel) wrs i = elim (get_elem? wrs i) [
  | none ↦ []
  | some wr ↦ elim wr.next [ none ↦ wr.wr_id ∷ [] | some j ↦ wr.wr_id ∷ chain fuel wrs j ]
]

-- What the library of verbs and the system answer.
pub record Answers : Type 0 where
  -- `alloc_raw`, with `none` for a failure; `ibv_reg_mr` and the key of the region.
  pub raw : Option ℕ
  pub registers : Bool
  pub lkey : ℕ
  -- `ibv_post_recv`, for the chain that it is given.
  pub posts : List ℕ → Bool
  -- The addresses that `new Buffer` gives.
  pub fresh : ℕ → ℕ

abbrev pub no_recvs : (ℕ → Buffer) → Mem → RecvRing
no_recvs placed mem = record { recv_wr = []; rx_ring = []; placed = placed; mem = mem }

-- `ibv_post_recv` gets the chain that is broken at its end; then the circle is closed again.
unfoldable pub post_ring : Answers → RecvRing → Option RecvRing
post_ring answers r =
    let broken = set_next r.recv_wr (depth - 1) none in
    if answers.posts (chain depth broken 0)
    then some (record r { recv_wr = set_next broken (depth - 1) (some 0) })
    else none

unfoldable pub fill_ring : RoceType → Answers → Buffer → RecvRing → Option RecvRing
fill_ring type answers extent r0 = do
  r ← init_recv_loop type answers.fresh extent depth 0 r0
  post_ring answers (record r { mem = link_loop answers.fresh depth 0 r.mem })

-- A new `HugeAlloc`.
abbrev pub nothing_free : HugeAlloc
nothing_free = record { freelist = λ i. []; user_alloc_tot = 0 }

module _ (bsr : ℕ → ℕ) where
  -- The extent of the ring, the allocator after it, and the ring.
  unfoldable pub init_recvs :
      RoceType → Answers → (ℕ → Buffer) → Mem → HugeAlloc → Option (Buffer × HugeAlloc × RecvRing)
  init_recvs type answers placed mem h =
      if leb ring_extent_size max_class_size
      then (do
        (e, h') ← alloc bsr h ring_extent_size
        extent ← e
        (if extent.buf == 0 then none else (do
          r ← fill_ring type answers extent (no_recvs placed mem)
          some (extent, h', r))))
      else none

  -- `init_mem_reg_funcs`, as far as the receive ring.
  unfoldable pub init_mem_reg_funcs :
      RoceType → Answers → (ℕ → Buffer) → Mem → Option (Buffer × HugeAlloc × RecvRing)
  init_mem_reg_funcs type answers placed mem = do
    raw ← answers.raw
    (let region = new_buffer raw mem_region_size answers.lkey in
        if answers.registers
        then init_recvs type answers placed mem
            (add_raw_buffer bsr nothing_free region mem_region_size)
        else none)

-- `init_sends`, from `i` on.
unfoldable pub init_sends : ℕ → ℕ → List SendWr
init_sends zero i = []
init_sends (suc left) i =
    record { sg_list = i; num_sge = 1; next = next_of i } ∷ init_sends left (i + 1)
