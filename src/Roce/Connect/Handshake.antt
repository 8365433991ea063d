-- ===== src/Roce/Connect/Handshake.antt =====
-- The handshake of two endpoints: each ends with the queue pair of the other.
use axio_emulator.Prelude.{
  ℕ, ◌%◌, ◌^◌, ◌<◌, ◌≡◌, refl, ap, ◌∙◌, List, [], ◌∷◌, true, none, some, length, take, replicate,
  arith,
}
use axio_emulator.QpInfo.{QpInfo, c_str, make, serialize, deserialize, max_nic_name_len}
use axio_emulator.QpInfo.Fields.{IsName, IsQpInfo, Bytes, take_short, c_str_same}
use axio_emulator.QpInfo.RoundTrip.{deserialize-serialize}
use axio_emulator.Roce.Connect.{
  RoceType, ud, rc, mtu, message_room, Port, AhAttr, Modify, to_init, Verbs, Connection,
  set_local_qp_info, no_info, message, receive_msg, remote_ah_attr, self_ah_attr,
  set_remote_qp_info, modify_qp, create_self_ah, rtr_of, rts_of, init_verbs,
}
use axio_emulator.Roce.Connect.Length.{serialize_lt}

-- What the library of verbs tells of a port and of the number of a queue pair.
pub record IsEndpoint (qp_id : ℕ) (port : Port) : Type 0 where
  pub qp_id_small : qp_id < 2 ^ 31
  pub port_lid : port.port_lid < 2 ^ 16
  pub gid_len : length port.gid ≡ 16
  pub gid : Bytes port.gid
  pub gid_index : port.gid_index < 2 ^ 8
  pub mac_len : length port.mac_addr ≡ 6
  pub mac_addr : Bytes port.mac_addr
  pub device_name : IsName port.device_name

-- What an endpoint tells of itself.
abbrev pub info_of : ℕ → Port → QpInfo
info_of qp_id port = record {
  qp_num = qp_id;
  lid = port.port_lid;
  gid = port.gid;
  gid_table_index = port.gid_index;
  mtu = mtu;
  mac_addr = port.mac_addr;
  hostname = [];
  nic_name = port.device_name;
  is_initialized = true;
}

set_local_qp_info-info_of :
    (qp_id : ℕ) (port : Port)
    → IsEndpoint qp_id port
    → set_local_qp_info qp_id port no_info ≡ info_of qp_id port
unfolding set_local_qp_info make c_str
set_local_qp_info-info_of qp_id port v =
    let num : qp_id % 2 ^ 32 ≡ qp_id = omega (arith, v.qp_id_small) in
    let gid = take_short 16 port.gid (omega (arith, v.gid_len)) in
    let mac = take_short 6 port.mac_addr (omega (arith, v.mac_len)) in
    let name : c_str (take max_nic_name_len port.device_name) ≡ port.device_name =
      ap c_str (take_short max_nic_name_len port.device_name (omega (arith, v.device_name.fits)))
      ∙ c_str_same port.device_name v.device_name.no_zero in
    cc (num, gid, mac, name)

info_of-IsQpInfo : (qp_id : ℕ) (port : Port) → IsEndpoint qp_id port → IsQpInfo (info_of qp_id port)
info_of-IsQpInfo qp_id port v = record {
  qp_num = v.qp_id_small;
  lid = v.port_lid;
  gid_len = v.gid_len;
  gid = v.gid;
  gid_table_index = v.gid_index;
  mtu = omega arith;
  mac_len = v.mac_len;
  mac_addr = v.mac_addr;
  hostname = record { no_semicolon = refl; no_colon = refl; no_zero = refl; fits = omega arith };
  nic_name = v.device_name;
}

-- One `read` takes the whole message, and it tells what its sender is.
pub message-received :
    (qp_id : ℕ) (port : Port)
    → IsEndpoint qp_id port
    → deserialize (receive_msg (message qp_id port)) no_info ≡ some (info_of qp_id port)
unfolding message make replicate
message-received qp_id port v =
    let info = info_of qp_id port in
    let good = info_of-IsQpInfo qp_id port v in
    let sent : message qp_id port ≡ serialize info =
      ap serialize (set_local_qp_info-info_of qp_id port v) in
    ap (λ m. deserialize (take message_room m) no_info) sent
    ∙ ap (λ m. deserialize m no_info)
        (take_short message_room (serialize info) (omega (arith, serialize_lt info good)))
    ∙ deserialize-serialize info no_info good refl refl

-- The queue pair was brought to INIT, RTR and RTS, in this order, towards the peer, and nothing else
-- was changed; UD keeps the number of the peer and an address handle for it.
pub record IsConnected (type : RoceType) (port : Port) (peer : QpInfo) (c : Connection)
    : Type 0 where
  pub modified :
      c.modified ≡ to_init (port.dev_port_id % 2 ^ 8) ∷ rtr_of type peer ∷ rts_of type ∷ []
  pub self_ah : c.self_ah ≡ some (self_ah_attr port)
  pub remote :
      (c.remote_qp_id ≡ elim type [ ud ↦ some peer.qp_num | rc ↦ none ])
      × (c.remote_ah ≡ elim type [ ud ↦ some (remote_ah_attr peer) | rc ↦ none ])

-- The connection that results when nothing fails.
abbrev pub connected : RoceType → Port → QpInfo → Connection
connected type port peer = record {
  remote_qp_id = elim type [ ud ↦ some peer.qp_num | rc ↦ none ];
  remote_ah = elim type [ ud ↦ some (remote_ah_attr peer) | rc ↦ none ];
  self_ah = some (self_ah_attr port);
  modified = to_init (port.dev_port_id % 2 ^ 8) ∷ rtr_of type peer ∷ rts_of type ∷ [];
}

-- The library of verbs refuses nothing.
pub record AllGood (verbs : Verbs) : Type 0 where
  pub makes_ah : (a : AhAttr) → verbs.makes_ah a ≡ true
  pub accepts : (m : Modify) → verbs.accepts m ≡ true

pub init_verbs-connected :
    (type : RoceType) (verbs : Verbs) (port : Port) (peer : QpInfo) (m : List ℕ)
    → deserialize (receive_msg m) no_info ≡ some peer
    → AllGood verbs
    → init_verbs type verbs port m ≡ some (connected type port peer)
unfolding init_verbs modify_qp create_self_ah set_remote_qp_info
init_verbs-connected ud verbs port peer m e good =
    rw
      (
        e,
        good.makes_ah (remote_ah_attr peer),
        good.accepts (to_init (port.dev_port_id % 2 ^ 8)),
        good.accepts (rtr_of ud peer),
        good.makes_ah (self_ah_attr port),
        good.accepts (rts_of ud),
      )
      refl
init_verbs-connected rc verbs port peer m e good =
    rw
      (
        e,
        good.accepts (to_init (port.dev_port_id % 2 ^ 8)),
        good.accepts (rtr_of rc peer),
        good.makes_ah (self_ah_attr port),
        good.accepts (rts_of rc),
      )
      refl
