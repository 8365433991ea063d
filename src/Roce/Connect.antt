-- ===== src/Roce/Connect.antt =====
-- src/dispatcher_impl/roce/roce_dispatcher.cc: the connection of two queue pairs, `set_local_qp_info`,
-- `set_remote_qp_info`, `create_ah`, `fill_local_routing_info` and the part of `init_verbs_structs`
-- after the queue pair is created, and `receiveMsg` of src/util/mgnt_connection.h. The library of
-- verbs enters by its answers: whether it makes an address handle, and whether it accepts a change
-- of the queue pair. An exception or a failed `rt_assert` is `none`.
mod Length
pub mod Handshake
pub mod Resolve
mod Examples
use axio_emulator.Prelude.{
  ℕ, ◌%◌, ◌^◌, List, [], ◌∷◌, ◌++◌, Bool, true, false, Option, none, some, take, ◌==◌,
  if◌then◌else◌,
}
use axio_emulator.QpInfo.{QpInfo, c_str, make, serialize, deserialize, max_nic_name_len}

-- `RoCE_TYPE`.
pub data RoceType : Type 0 where
  ud rc : RoceType

-- `kMTU`, `kDefaultGIDIndex`, and the room of `receiveMsg`.
abbrev pub mtu : ℕ
mtu = 2048

abbrev pub default_gid_index : ℕ
default_gid_index = 3

abbrev pub message_room : ℕ
message_room = 1024

-- `resolve_`: what is known of the port, and the name of its device.
pub record Port : Type 0 where
  pub dev_port_id : ℕ
  pub port_lid : ℕ
  pub gid : List ℕ
  pub gid_index : ℕ
  pub mac_addr : List ℕ
  pub device_name : List ℕ

-- The fields that are set of `ibv_ah_attr`.
pub record AhAttr : Type 0 where
  pub sl : ℕ
  pub port_num : ℕ
  pub dlid : ℕ
  pub dgid : List ℕ
  pub is_global : Bool
  pub sgid_index : ℕ
  pub hop_limit : ℕ

pub data Mtu : Type 0 where
  mtu_unset mtu_1024 mtu_2048 mtu_4096 : Mtu

-- The `switch` on the MTU; any other is reported and left unset.
abbrev pub path_mtu : ℕ → Mtu
path_mtu n =
    if n == 1024
    then mtu_1024
    else if n == 2048
    then mtu_2048
    else if n == 4096
    then mtu_4096
    else mtu_unset

-- What the RC transport sets on the way to RTR, and on the way to RTS.
pub record RtrAttr : Type 0 where
  pub path : Mtu
  pub dest_qp_num : ℕ
  pub rq_psn : ℕ
  pub max_dest_rd_atomic : ℕ
  pub min_rnr_timer : ℕ
  pub ah_attr : AhAttr

pub record RtsAttr : Type 0 where
  pub sq_psn : ℕ
  pub timeout : ℕ
  pub retry_cnt : ℕ
  pub rnr_retry : ℕ
  pub max_rd_atomic : ℕ

-- A call of `ibv_modify_qp`. UD sets no attribute of RTR, and only `sq_psn` of RTS.
pub data Modify : Type 0 where
  to_init : ℕ → Modify
  to_rtr_ud : Modify
  to_rtr_rc : RtrAttr → Modify
  to_rts_ud : ℕ → Modify
  to_rts_rc : RtsAttr → Modify

-- The answers of the library of verbs.
pub record Verbs : Type 0 where
  pub makes_ah : AhAttr → Bool
  pub accepts : Modify → Bool

pub record Connection : Type 0 where
  pub remote_qp_id : Option ℕ
  pub remote_ah : Option AhAttr
  pub self_ah : Option AhAttr
  pub modified : List Modify

unfoldable pub set_local_qp_info : ℕ → Port → QpInfo → QpInfo
set_local_qp_info qp_id port info = record info {
  qp_num = qp_id % 2 ^ 32;
  lid = port.port_lid;
  gid = take 16 port.gid;
  gid_table_index = port.gid_index;
  mtu = mtu;
  nic_name = c_str (take max_nic_name_len port.device_name);
  mac_addr = take 6 port.mac_addr;
  is_initialized = true;
}

abbrev pub no_info : QpInfo
no_info = make 0 0 none 0 [] []

-- What an endpoint sends.
unfoldable pub message : ℕ → Port → List ℕ
message qp_id port = serialize (set_local_qp_info qp_id port no_info)

-- One `read` of what arrived.
abbrev pub receive_msg : List ℕ → List ℕ
receive_msg arrived = take message_room arrived

-- The address handle of the remote queue pair.
unfoldable pub remote_ah_attr : QpInfo → AhAttr
remote_ah_attr info = record {
  sl = 0;
  port_num = 1;
  dlid = info.lid;
  dgid = take 16 info.gid;
  is_global = true;
  sgid_index = default_gid_index;
  hop_limit = 2;
}

-- `create_ah` with `fill_local_routing_info`.
unfoldable pub self_ah_attr : Port → AhAttr
self_ah_attr port = record {
  sl = 0;
  port_num = port.dev_port_id;
  dlid = 0;
  dgid = port.gid;
  is_global = true;
  sgid_index = default_gid_index;
  hop_limit = 2;
}

unfoldable pub rtr_attr : QpInfo → RtrAttr
rtr_attr info = record {
  path = path_mtu mtu;
  dest_qp_num = info.qp_num;
  rq_psn = 0;
  max_dest_rd_atomic = 1;
  min_rnr_timer = 12;
  ah_attr = remote_ah_attr info;
}

abbrev pub rts_attr : RtsAttr
rts_attr = record { sq_psn = 0; timeout = 14; retry_cnt = 7; rnr_retry = 7; max_rd_atomic = 1 }

abbrev pub not_connected : Connection
not_connected = record { remote_qp_id = none; remote_ah = none; self_ah = none; modified = [] }

-- `set_remote_qp_info`.
unfoldable pub set_remote_qp_info : Verbs → QpInfo → Connection → Option Connection
set_remote_qp_info verbs info c =
    if verbs.makes_ah (remote_ah_attr info)
    then some (record c { remote_qp_id = some info.qp_num; remote_ah = some (remote_ah_attr info) })
    else none

unfoldable pub modify_qp : Verbs → Modify → Connection → Option Connection
modify_qp verbs m c =
    if verbs.accepts m then some (record c { modified = c.modified ++ (m ∷ []) }) else none

unfoldable pub create_self_ah : Verbs → Port → Connection → Option Connection
create_self_ah verbs port c =
    if verbs.makes_ah (self_ah_attr port)
    then some (record c { self_ah = some (self_ah_attr port) })
    else none

infixl 5 ◌>>=◌
abbrev pub ◌>>=◌ {ℓ κ} : {A : Type ℓ} {B : Type κ} → Option A → (A → Option B) → Option B
none >>= f = none
some a >>= f = f a

abbrev pub take_remote : RoceType → Verbs → QpInfo → Connection → Option Connection
take_remote ud verbs info c = set_remote_qp_info verbs info c
take_remote rc verbs info c = some c

abbrev pub rtr_of : RoceType → QpInfo → Modify
rtr_of ud info = to_rtr_ud
rtr_of rc info = to_rtr_rc (rtr_attr info)

abbrev pub rts_of : RoceType → Modify
rts_of ud = to_rts_ud 0
rts_of rc = to_rts_rc rts_attr

-- The handshake and the states of the queue pair, for a message that arrived.
unfoldable pub init_verbs : RoceType → Verbs → Port → List ℕ → Option Connection
init_verbs type verbs port arrived = do
  info ← deserialize (receive_msg arrived) no_info
  c ← take_remote type verbs info not_connected
  c ← modify_qp verbs (to_init (port.dev_port_id % 2 ^ 8)) c
  c ← modify_qp verbs (rtr_of type info) c
  c ← create_self_ah verbs port c
  modify_qp verbs (rts_of type) c
