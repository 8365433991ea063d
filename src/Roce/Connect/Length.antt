-- ===== src/Roce/Connect/Length.antt =====
-- The text of a queue pair fits in the buffer of `receiveMsg`.
use axio_emulator.Prelude.{
  ℕ, zero, suc, ◌+◌, ◌*◌, ◌%◌, ◌/◌, ◌≤◌, ◌<◌, ◌≡◌, List, [], ◌∷◌, ◌++◌, length, length-append,
  length-map, arith,
}
use axio_emulator.Text.{digits_of, to_string, to_char}
use axio_emulator.Text.Split.{join}
use axio_emulator.QpInfo.{
  QpInfo, serialize, put, field, bytes_text, bool_num, k_qp_num, k_lid, k_gid, k_gid_table_index,
  k_mac, k_mtu, k_hostname, k_nic_name, k_is_initialized,
}
use axio_emulator.QpInfo.Fields.{IsQpInfo}

digits_of_le : (fuel n : ℕ) → length (digits_of fuel n) ≤ fuel + 1
unfolding digits_of
digits_of_le zero n = omega arith
digits_of_le (suc fuel) n =
    ground
      (arith, digits_of_le fuel (n / 10), length-append (digits_of fuel (n / 10)) (n % 10 ∷ []))

to_string_le : (n : ℕ) → length (to_string n) ≤ 20
unfolding to_string
to_string_le n = omega (arith, length-map to_char (digits_of 19 n), digits_of_le 19 n)

bytes_text_le : (bs : List ℕ) → length (bytes_text bs) ≤ 21 * length bs
unfolding join
bytes_text_le [] = omega arith
bytes_text_le (b ∷ bs) =
    omega
      (arith, length-append (to_string b) (b',' ∷ bytes_text bs), to_string_le b, bytes_text_le bs)

length-put :
    (name text rest : List ℕ)
    → length (put name text rest) ≡ length name + length text + length rest + 2
length-put name text rest =
    omega
      (arith, length-append (name ++ (b':' ∷ text)) (b';' ∷ rest), length-append name (b':' ∷ text))

pub serialize_lt : (info : QpInfo) → IsQpInfo info → length (serialize info) < 1024
unfolding serialize
serialize_lt info v =
    let l9 = field k_is_initialized (to_string (bool_num info.is_initialized)) in
    let l8 = put k_nic_name info.nic_name l9 in
    let l7 = put k_hostname info.hostname l8 in
    let l6 = put k_mtu (to_string info.mtu) l7 in
    let l5 = put k_mac (bytes_text info.mac_addr) l6 in
    let l4 = put k_gid_table_index (to_string info.gid_table_index) l5 in
    let l3 = put k_gid (bytes_text info.gid) l4 in
    let l2 = put k_lid (to_string info.lid) l3 in
    let numbers : length l9 ≤ 35 = omega (
      arith,
      length-append k_is_initialized (b':' ∷ to_string (bool_num info.is_initialized)),
      to_string_le (bool_num info.is_initialized),
    ) in
    let names : length l7 ≤ 181 = omega (
      arith,
      length-put k_hostname info.hostname l8,
      length-put k_nic_name info.nic_name l9,
      numbers,
      v.hostname.fits,
      v.nic_name.fits,
    ) in
    let tail : length l4 ≤ 390 = omega (
      arith,
      length-put k_gid_table_index (to_string info.gid_table_index) l5,
      length-put k_mac (bytes_text info.mac_addr) l6,
      length-put k_mtu (to_string info.mtu) l7,
      names,
      bytes_text_le info.mac_addr,
      v.mac_len,
      to_string_le info.gid_table_index,
      to_string_le info.mtu,
    ) in
    omega (
      arith,
      length-put k_qp_num (to_string info.qp_num) l2,
      length-put k_lid (to_string info.lid) l3,
      length-put k_gid (bytes_text info.gid) l4,
      tail,
      bytes_text_le info.gid,
      v.gid_len,
      to_string_le info.qp_num,
      to_string_le info.lid,
    )
