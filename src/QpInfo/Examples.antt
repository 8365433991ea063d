-- ===== src/QpInfo/Examples.antt =====
-- The description of a queue pair of host `n1`.
use axio_emulator.Prelude.{ℕ, ◌≡◌, refl, List, [], ◌∷◌, none, some, true, arith}
use axio_emulator.Text.{codes}
use axio_emulator.QpInfo.{QpInfo, serialize, deserialize}
use axio_emulator.QpInfo.Fields.{IsQpInfo, Bytes, byte, no_byte}
use axio_emulator.QpInfo.RoundTrip.{deserialize-serialize, deserialize-overflow}

abbrev bytes4 : List ℕ → List ℕ
bytes4 bs = 254 ∷ 128 ∷ 0 ∷ 7 ∷ bs

abbrev pair : ℕ → QpInfo
pair qp_num = record {
  qp_num = qp_num;
  lid = 3;
  gid = bytes4 (bytes4 (bytes4 (bytes4 [])));
  gid_table_index = 3;
  mtu = 1024;
  mac_addr = 1 ∷ 2 ∷ bytes4 [];
  hostname = codes "n1";
  nic_name = codes "mlx5_0";
  is_initialized = true;
}

bytes4-Bytes : {bs : List ℕ} → Bytes bs → Bytes (bytes4 bs)
bytes4-Bytes r = byte (omega arith) (byte (omega arith) (byte (omega arith) (byte (omega arith) r)))

pair-IsQpInfo : IsQpInfo (pair 291)
pair-IsQpInfo = record {
  qp_num = omega arith;
  lid = omega arith;
  gid_len = refl;
  gid = bytes4-Bytes (bytes4-Bytes (bytes4-Bytes (bytes4-Bytes no_byte)));
  gid_table_index = omega arith;
  mtu = omega arith;
  mac_len = refl;
  mac_addr = byte (omega arith) (byte (omega arith) (bytes4-Bytes no_byte));
  hostname = record { no_semicolon = refl; no_colon = refl; no_zero = refl; fits = omega arith };
  nic_name = record { no_semicolon = refl; no_colon = refl; no_zero = refl; fits = omega arith };
}

deserialize-serialize_example : deserialize (serialize (pair 291)) (pair 0) ≡ some (pair 291)
deserialize-serialize_example = deserialize-serialize (pair 291) (pair 0) pair-IsQpInfo refl refl

deserialize-overflow_example : deserialize (serialize (pair 3000000000)) (pair 0) ≡ none
deserialize-overflow_example =
    deserialize-overflow (pair 3000000000) (pair 0) (omega arith) (omega arith)
