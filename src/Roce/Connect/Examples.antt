-- ===== src/Roce/Connect/Examples.antt =====
-- Two hosts with one port each, over RC.
use axio_emulator.Prelude.{ℕ, List, [], ◌∷◌, true}
use axio_emulator.Text.{codes}
use axio_emulator.Roce.Connect.{Port, Verbs}

abbrev four : List ℕ → List ℕ
four bs = 10 ∷ 0 ∷ 0 ∷ 7 ∷ bs

abbrev port_of : ℕ → Port
port_of lid = record {
  dev_port_id = 1;
  port_lid = lid;
  gid = four (four (four (four [])));
  gid_index = 3;
  mac_addr = 2 ∷ 3 ∷ four [];
  device_name = codes "mlx5_0";
}

abbrev willing : Verbs
willing = record { makes_ah = λ a. true; accepts = λ m. true }
