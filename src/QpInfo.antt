-- ===== src/QpInfo.antt =====
-- src/dispatcher_impl/roce/qpinfo.hh: the description of a queue pair that two hosts exchange. A
-- `char` array keeps the text up to its first zero.
pub mod Fields
pub mod RoundTrip
mod Examples
use axio_emulator.Prelude.{
  ℕ, zero, suc, ◌+◌, ◌-◌, ◌%◌, ◌^◌, List, [], ◌∷◌, ◌++◌, map, Bool, true, false, not, Option, none,
  some, length, get_or, take, drop, replicate, ◌==◌, if◌then◌else◌,
}
use axio_emulator.Text.{codes, same, tokens, to_string, stoi}
use axio_emulator.Text.Split.{join}

-- `MAX_HOSTNAME_LEN` and `MAX_NIC_NAME_LEN`.
abbrev pub max_hostname_len : ℕ
max_hostname_len = 64

abbrev pub max_nic_name_len : ℕ
max_nic_name_len = 64

pub record QpInfo : Type 0 where
  pub qp_num : ℕ
  pub lid : ℕ
  pub gid : List ℕ
  pub gid_table_index : ℕ
  pub mtu : ℕ
  pub mac_addr : List ℕ
  pub hostname : List ℕ
  pub nic_name : List ℕ
  pub is_initialized : Bool

-- The text that a C string has, up to its first zero.
unfoldable pub c_str : List ℕ → List ℕ
c_str [] = []
c_str (c ∷ cs) = let rest = c_str cs in if c == 0 then [] else c ∷ rest

-- `strncpy` into an array of `size`, whose last character is then set to zero.
abbrev pub copy_text : ℕ → List ℕ → List ℕ
copy_text size text = take (size - 1) (c_str text)

abbrev pub bytes_or_zero : ℕ → Option (List ℕ) → List ℕ
bytes_or_zero n none = replicate n 0
bytes_or_zero n (some bytes) = take n bytes

-- The constructor; a null `gid_ptr` is `none`.
unfoldable pub make : ℕ → ℕ → Option (List ℕ) → ℕ → List ℕ → List ℕ → QpInfo
make qp_num lid gid_ptr mtu hostname nic_name = record {
  qp_num = qp_num;
  lid = lid;
  gid = bytes_or_zero 16 gid_ptr;
  gid_table_index = 0;
  mtu = mtu;
  mac_addr = replicate 6 0;
  hostname = copy_text max_hostname_len hostname;
  nic_name = copy_text max_nic_name_len nic_name;
  is_initialized = false;
}

abbrev pub bytes_or : ℕ → List ℕ → Option (List ℕ) → List ℕ
bytes_or n old none = old
bytes_or n old (some bytes) = take n bytes

unfoldable pub set_gid : Option (List ℕ) → QpInfo → QpInfo
set_gid gid_ptr info = record info { gid = bytes_or 16 info.gid gid_ptr }

unfoldable pub set_mac : Option (List ℕ) → QpInfo → QpInfo
set_mac mac_ptr info = record info { mac_addr = bytes_or 6 info.mac_addr mac_ptr }

-- The names of the fields.
abbrev pub k_qp_num : List ℕ
k_qp_num = codes "qp_num"

abbrev pub k_lid : List ℕ
k_lid = codes "lid"

abbrev pub k_gid : List ℕ
k_gid = codes "gid"

abbrev pub k_gid_table_index : List ℕ
k_gid_table_index = codes "gid_table_index"

abbrev pub k_mac : List ℕ
k_mac = codes "mac"

abbrev pub k_mtu : List ℕ
k_mtu = codes "mtu"

abbrev pub k_hostname : List ℕ
k_hostname = codes "hostname"

abbrev pub k_nic_name : List ℕ
k_nic_name = codes "nic_name"

abbrev pub k_is_initialized : List ℕ
k_is_initialized = codes "is_initialized"

-- `name:text`.
abbrev pub field : List ℕ → List ℕ → List ℕ
field name text = name ++ (b':' ∷ text)

-- Numbers, each followed by a comma.
abbrev pub bytes_text : List ℕ → List ℕ
bytes_text bytes = join b',' (map to_string bytes)

abbrev pub bool_num : Bool → ℕ
bool_num true = 1
bool_num false = 0

-- A field and the semicolon behind it.
abbrev pub put : List ℕ → List ℕ → List ℕ → List ℕ
put name text rest = field name text ++ (b';' ∷ rest)

unfoldable pub serialize : QpInfo → List ℕ
serialize info =
    let last = field k_is_initialized (to_string (bool_num info.is_initialized)) in
    let names = put k_hostname info.hostname (put k_nic_name info.nic_name last) in
    let tail = put k_mac (bytes_text info.mac_addr) (put k_mtu (to_string info.mtu) names) in
    let index = put k_gid_table_index (to_string info.gid_table_index) tail in
    put k_qp_num (to_string info.qp_num)
      (put k_lid (to_string info.lid) (put k_gid (bytes_text info.gid) index))

abbrev pub set_value : (ℕ → QpInfo) → Option ℕ → Option QpInfo
set_value f none = none
set_value f (some v) = some (f v)

abbrev pub add_byte : Option ℕ → Option (List ℕ) → Option (List ℕ)
add_byte none rest = none
add_byte (some v) none = none
add_byte (some v) (some bytes) = some (v % 2 ^ 8 ∷ bytes)

-- `std::stoi` of each token.
unfoldable pub parse_bytes : List (List ℕ) → Option (List ℕ)
parse_bytes [] = some []
parse_bytes (t ∷ ts) = let rest = parse_bytes ts in add_byte (stoi 10 t) rest

abbrev pub set_bytes : (List ℕ → QpInfo) → List ℕ → Option (List ℕ) → Option QpInfo
set_bytes f old none = none
set_bytes f old (some bytes) = some (f (bytes ++ drop (length bytes) old))

-- The cases on `key`; `none` is an exception of `std::stoi`.
abbrev pub set_field : List ℕ → List ℕ → QpInfo → Option QpInfo
set_field key text info =
    if same key k_qp_num
    then set_value (λ v. record info { qp_num = v % 2 ^ 32 }) (stoi 10 text)
    else if same key k_lid
    then set_value (λ v. record info { lid = v % 2 ^ 16 }) (stoi 10 text)
    else if same key k_gid
    then set_bytes (λ bs. record info { gid = bs }) info.gid
        (parse_bytes (take 16 (tokens b',' text)))
    else if same key k_gid_table_index
    then set_value (λ v. record info { gid_table_index = v % 2 ^ 8 }) (stoi 10 text)
    else if same key k_mac
    then set_bytes (λ bs. record info { mac_addr = bs }) info.mac_addr
        (parse_bytes (take 6 (tokens b',' text)))
    else if same key k_mtu
    then set_value (λ v. record info { mtu = v % 2 ^ 32 }) (stoi 10 text)
    else if same key k_hostname
    then some (record info { hostname = copy_text max_hostname_len text })
    else if same key k_nic_name
    then some (record info { nic_name = copy_text max_nic_name_len text })
    else if same key k_is_initialized
    then set_value (λ v. record info { is_initialized = not (v == 0) }) (stoi 10 text)
    else some info

-- One token: the key and the value are its first two pieces between colons.
unfoldable pub set_token : List ℕ → QpInfo → Option QpInfo
set_token token info =
    let pieces = tokens b':' token in set_field (get_or pieces 0 []) (get_or pieces 1 []) info

unfoldable pub set_tokens : List (List ℕ) → QpInfo → Option QpInfo
set_tokens [] info = some info
set_tokens (t ∷ ts) info = elim (set_token t info) [
  | none ↦ none
  | some info' ↦ set_tokens ts info'
]

unfoldable pub deserialize : List ℕ → QpInfo → Option QpInfo
deserialize text info = set_tokens (tokens b';' text) info
