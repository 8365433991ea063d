-- ===== src/Mbuf/Payload.antt =====
-- What `set_payload` and `cp_payload` leave in a buffer, and in the others.
use axio_emulator.Prelude.{ℕ, ◌+◌, ◌≡◌, ◌≢◌, arith}
use axio_emulator.Mbuf.{UdpHdr, WsHdr, Mem, header_size, set_payload, extract_ws_hdr}

-- Reading the workspace header back gives what was set, the length covers headers and payload, and
-- no other buffer changes.
pub extract_ws_hdr-set_payload :
    (mem : Mem) (p q : ℕ) (uh : UdpHdr) (hdr : WsHdr) (payload_size : ℕ)
    → (extract_ws_hdr (set_payload mem p uh hdr payload_size) p ≡ hdr)
      × ((set_payload mem p uh hdr payload_size p).length ≡ header_size + payload_size)
      × (q ≢ p → set_payload mem p uh hdr payload_size q ≡ mem q)
unfolding set_payload extract_ws_hdr
extract_ws_hdr-set_payload mem p q uh hdr payload_size =
    (ground arith, ground arith, λ ne. ground arith)

-- The header is there in the buffer that is set, and stays where it was already.
pub set_payload-ws :
    (mem : Mem) (p q : ℕ) (uh : UdpHdr) (hdr : WsHdr) (size : ℕ)
    → ((set_payload mem p uh hdr size p).ws ≡ hdr)
      × ((mem q).ws ≡ hdr → (set_payload mem p uh hdr size q).ws ≡ hdr)
unfolding set_payload
set_payload-ws mem p q uh hdr size = (ground arith, λ e. ground arith)
