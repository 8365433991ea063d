-- ===== src/Config/Server.antt =====
-- `config_server` (src/config.cc): the keys that describe the host, and the tunable parameters. The
-- order in which the keys of the map are visited does not matter. A `char` array keeps the text up to its
-- first zero; a text that does not fit in it is written out of bounds, which is `none`.
use axio_emulator.Prelude.{
  ℕ, ◌%◌, ◌^◌, List, [], ◌∷◌, Option, none, some, length, get_or, set, take, ltb, ◌==◌,
  if◌then◌else◌,
}
use axio_emulator.Text.{codes, same, tokens, stoi}

pub record ServerConfig : Type 0 where
  pub numa : ℕ
  pub phy_port : ℕ
  pub iteration : ℕ
  pub duration : ℕ
  pub local_ip : List ℕ
  pub remote_ip : List ℕ
  pub local_mac : List ℕ
  pub remote_mac : List ℕ
  pub device_pcie_addr : List ℕ
  pub device_name : List ℕ
  pub app_core_num : ℕ
  pub disp_queue_num : ℕ
  pub app_tx_msg_batch_size : ℕ
  pub app_rx_msg_batch_size : ℕ
  pub disp_tx_batch_size : ℕ
  pub disp_rx_batch_size : ℕ
  pub nic_tx_post_size : ℕ
  pub nic_rx_post_size : ℕ

-- `std::stoi` into a field of `width` bits.
abbrev pub set_num : ℕ → (ℕ → ServerConfig) → Option ℕ → Option ServerConfig
set_num width f none = none
set_num width f (some v) = some (f (v % 2 ^ width))

-- A text and its zero, in an array of `size`.
abbrev pub set_text : ℕ → (List ℕ → ServerConfig) → List ℕ → Option ServerConfig
set_text size f text = if ltb (length text) size then some (f text) else none

abbrev pub set_mac : (List ℕ → ServerConfig) → Option (List ℕ) → Option ServerConfig
set_mac f none = none
set_mac f (some bytes) = if length bytes == 6 then some (f bytes) else none

abbrev pub cons_byte : Option ℕ → Option (List ℕ) → Option (List ℕ)
cons_byte none rest = none
cons_byte (some v) none = none
cons_byte (some v) (some bytes) = some (v % 2 ^ 8 ∷ bytes)

unfoldable pub parse_mac : List (List ℕ) → Option (List ℕ)
parse_mac [] = some []
parse_mac (t ∷ ts) = cons_byte (stoi 16 t) (parse_mac ts)

-- The dots of a PCIe address that stand for colons, and the end of the text.
abbrev pub pcie_text : List ℕ → List ℕ
pcie_text text = take 12 (set (set text 4 b':') 7 b':')

-- One key with its first value, a device's PCIe address having its 12 characters.
unfoldable pub config_entry : List ℕ → List ℕ → ServerConfig → Option ServerConfig
config_entry key v s =
    if same key (codes "numa")
    then set_num 8 (λ n. record s { numa = n }) (stoi 10 v)
    else if same key (codes "phy_port")
    then set_num 8 (λ n. record s { phy_port = n }) (stoi 10 v)
    else if same key (codes "iteration")
    then set_num 8 (λ n. record s { iteration = n }) (stoi 10 v)
    else if same key (codes "duration")
    then set_num 8 (λ n. record s { duration = n }) (stoi 10 v)
    else if same key (codes "local_ip")
    then set_text 16 (λ t. record s { local_ip = t }) v
    else if same key (codes "remote_ip")
    then set_text 16 (λ t. record s { remote_ip = t }) v
    else if same key (codes "local_mac")
    then set_mac (λ m. record s { local_mac = m }) (parse_mac (take 6 (tokens b'.' v)))
    else if same key (codes "remote_mac")
    then set_mac (λ m. record s { remote_mac = m }) (parse_mac (take 6 (tokens b'.' v)))
    else if same key (codes "device_pcie")
    then set_text 14 (λ t. record s { device_pcie_addr = pcie_text t }) v
    else if same key (codes "device_name")
    then set_text 32 (λ t. record s { device_name = t }) v
    else if same key (codes "kAppCoreNum")
    then set_num 8 (λ n. record s { app_core_num = n }) (stoi 10 v)
    else if same key (codes "kDispQueueNum")
    then set_num 8 (λ n. record s { disp_queue_num = n }) (stoi 10 v)
    else if same key (codes "kAppTxMsgBatchSize")
    then set_num 16 (λ n. record s { app_tx_msg_batch_size = n }) (stoi 10 v)
    else if same key (codes "kAppRxMsgBatchSize")
    then set_num 16 (λ n. record s { app_rx_msg_batch_size = n }) (stoi 10 v)
    else if same key (codes "kDispTxBatchSize")
    then set_num 16 (λ n. record s { disp_tx_batch_size = n }) (stoi 10 v)
    else if same key (codes "kDispRxBatchSize")
    then set_num 16 (λ n. record s { disp_rx_batch_size = n }) (stoi 10 v)
    else if same key (codes "kNICTxPostSize")
    then set_num 16 (λ n. record s { nic_tx_post_size = n }) (stoi 10 v)
    else if same key (codes "kNICRxPostSize")
    then set_num 16 (λ n. record s { nic_rx_post_size = n }) (stoi 10 v)
    else some s

unfoldable pub config_server : List (List ℕ × List (List ℕ)) → ServerConfig → Option ServerConfig
config_server [] s = some s
config_server ((key, vs) ∷ entries) s = elim (config_entry key (get_or vs 0 []) s) [
  | none ↦ none
  | some s' ↦ config_server entries s'
]
