-- ===== src/Mbuf/Examples.antt =====
-- Two buffers.
use axio_emulator.Prelude.{ℕ, ◌+◌, ◌≡◌, ◌≢◌, [], ◌∷◌, arith}
use axio_emulator.HugeAlloc.{free, app_owned}
use axio_emulator.Mbuf.{Mem, UdpHdr, WsHdr, header_size, set_payload, extract_ws_hdr, de_alloc_bulk}
use axio_emulator.Mbuf.Payload.{extract_ws_hdr-set_payload}
use axio_emulator.Mbuf.Free.{de_alloc_bulk-free}

abbrev memory : Mem
memory = λ p. record {
  length = 0;
  state = app_owned;
  next = 0;
  udp = record { source = 0; dest = 0 };
  ws = record { workload_type = 0; segment_num = 0 };
  payload = [];
}

abbrev ports : UdpHdr
ports = record { source = 2; dest = 3 }

abbrev header : WsHdr
header = record { workload_type = 1; segment_num = 4 }

abbrev other : ℕ
other = 9

extract_ws_hdr_example :
    (extract_ws_hdr (set_payload memory 8 ports header 22) 8 ≡ header)
    × ((set_payload memory 8 ports header 22 8).length ≡ header_size + 22)
    × (other ≢ 8 → set_payload memory 8 ports header 22 other ≡ memory other)
extract_ws_hdr_example = extract_ws_hdr-set_payload memory 8 other ports header 22

de_alloc_bulk_example : (de_alloc_bulk memory (8 ∷ 9 ∷ []) 9).state ≡ free
de_alloc_bulk_example = de_alloc_bulk-free (8 ∷ 9 ∷ []) memory 1 (omega arith)
