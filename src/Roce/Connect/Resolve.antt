-- ===== src/Roce/Connect/Resolve.antt =====
-- `roce_resolve_phy_port` (src/dispatcher_impl/roce/roce_dispatcher.cc): what a port tells the
-- handshake. The answers of `ibv_query_port` and `ibv_query_gid_ex` are arguments, with `none` for a
-- failure.
use axio_emulator.Prelude.{
  ℕ, ◌%◌, ◌^◌, ◌<◌, ◌≡◌, refl, List, Bool, true, Option, none, some, length, take, if◌then◌else◌,
  arith,
}
use axio_emulator.QpInfo.Fields.{Bytes, IsName, take_short}
use axio_emulator.Roce.Connect.{Port, ◌>>=◌}
use axio_emulator.Roce.Connect.Handshake.{IsEndpoint}

-- `ibv_gid_entry`, with whether its type is IBV_GID_TYPE_ROCE_V2.
pub record GidEntry : Type 0 where
  pub gid : List ℕ
  pub gid_index : ℕ
  pub is_roce_v2 : Bool

unfoldable pub resolve_phy_port : Option ℕ → Option GidEntry → Port → Option Port
resolve_phy_port port_lid gid_entry port = do
  lid ← port_lid
  entry ← gid_entry
  (if entry.is_roce_v2
      then some (record port {
        port_lid = lid;
        gid = take 16 entry.gid;
        gid_index = entry.gid_index % 2 ^ 8;
      })
      else none)

-- A port with a RoCE v2 address, whose LID has 16 bits and whose GID has 16 bytes, resolves to an
-- endpoint of the handshake.
resolve_phy_port-IsEndpoint :
    (qp_id lid : ℕ) (entry : GidEntry) (port : Port)
    → qp_id < 2 ^ 31
    → lid < 2 ^ 16
    → length entry.gid ≡ 16
    → Bytes entry.gid
    → length port.mac_addr ≡ 6
    → Bytes port.mac_addr
    → IsName port.device_name
    → entry.is_roce_v2 ≡ true
    → (out : Port) × (resolve_phy_port (some lid) (some entry) port ≡ some out)
      × IsEndpoint qp_id out
unfolding resolve_phy_port
resolve_phy_port-IsEndpoint qp_id lid entry port small lid_small len bytes mac_len mac name v2 =
    let out : Port = record port {
      port_lid = lid;
      gid = entry.gid;
      gid_index = entry.gid_index % 2 ^ 8;
    } in
    (
      out,
      rw (v2, take_short 16 entry.gid (omega (arith, len))) refl,
      record {
        qp_id_small = small;
        port_lid = lid_small;
        gid_len = len;
        gid = bytes;
        gid_index = omega arith;
        mac_len = mac_len;
        mac_addr = mac;
        device_name = name;
      },
    )
