-- ===== src/QpInfo/RoundTrip.antt =====
-- `deserialize` undoes `serialize`, for numbers that `std::stoi` reads and names without separators.
use axio_emulator.Prelude.{
  ℕ, ◌%◌, ◌^◌, ◌≤◌, ◌<◌, ◌≡◌, refl, ap, ◌∙◌, List, [], ◌∷◌, ◌++◌, Bool, true, false, not, none,
  some, length, take, count, ◌==◌, arith,
}
use axio_emulator.Text.{tokens, to_string, stoi}
use axio_emulator.Text.Split.{tokens-piece, tokens-last}
use axio_emulator.Text.Number.{stoi-to_string, count-to_string}
use axio_emulator.QpInfo.{
  QpInfo, k_qp_num, k_lid, k_gid, k_gid_table_index, k_mac, k_mtu, k_hostname, k_nic_name,
  k_is_initialized, field, put, bytes_text, bool_num, serialize, set_value, parse_bytes, set_bytes,
  set_field, set_token, set_tokens, deserialize,
}
use axio_emulator.QpInfo.Fields.{
  IsName, IsQpInfo, Bytes, small_int, read-Bytes, set_bytes-whole, copy_text-same, set_token-field,
  set_tokens-step, count-field, count-bytes,
}

-- What the steps have to know of a field.
record Plain (name text : List ℕ) : Type 0 where
  name_colon : count b':' name ≡ 0
  name_semicolon : count b';' name ≡ 0
  colon : count b':' text ≡ 0
  semicolon : count b';' text ≡ 0

put-step :
    (name text rest : List ℕ) (info info' : QpInfo)
    → Plain name text
    → set_field name text info ≡ some info'
    → deserialize (put name text rest) info ≡ deserialize rest info'
unfolding deserialize
put-step name text rest info info' p e =
    ap (λ ts. set_tokens ts info)
      (tokens-piece b';' (field name text) rest
        (count-field b';' name text p.name_semicolon refl p.semicolon))
    ∙ set_tokens-step (field name text) (tokens b';' rest) info info'
        (set_token-field name text info p.name_colon p.colon ∙ e)

last-step :
    (n : ℕ) (ns text : List ℕ) (info info' : QpInfo)
    → Plain (n ∷ ns) text
    → set_field (n ∷ ns) text info ≡ some info'
    → deserialize (field (n ∷ ns) text) info ≡ some info'
unfolding deserialize set_tokens
last-step n ns text info info' p e =
    ap (λ ts. set_tokens ts info)
      (tokens-last b';' n (ns ++ (b':' ∷ text))
        (count-field b';' (n ∷ ns) text p.name_semicolon refl p.semicolon))
    ∙ set_tokens-step (field (n ∷ ns) text) [] info info'
        (set_token-field (n ∷ ns) text info p.name_colon p.colon ∙ e)

number :
    (name : List ℕ) (n : ℕ) → count b':' name ≡ 0 → count b';' name ≡ 0 → Plain name (to_string n)
number name n e1 e2 = record {
  name_colon = e1;
  name_semicolon = e2;
  colon = count-to_string b':' n (omega arith);
  semicolon = count-to_string b';' n (omega arith);
}

array : (name bs : List ℕ) → count b':' name ≡ 0 → count b';' name ≡ 0 → Plain name (bytes_text bs)
array name bs e1 e2 = record {
  name_colon = e1;
  name_semicolon = e2;
  colon = count-bytes b':' bs (omega arith);
  semicolon = count-bytes b';' bs (omega arith);
}

named :
    (name text : List ℕ) → count b':' name ≡ 0 → count b';' name ≡ 0 → IsName text → Plain name text
named name text e1 e2 v = record {
  name_colon = e1;
  name_semicolon = e2;
  colon = v.no_colon;
  semicolon = v.no_semicolon;
}

number_step :
    (f : ℕ → QpInfo) (n : ℕ) → n < 2 ^ 31 → set_value f (stoi 10 (to_string n)) ≡ some (f n)
number_step f n lt = ap (set_value f) (small_int n lt)

Bytes-step :
    (n : ℕ) (f : List ℕ → QpInfo) (old bs : List ℕ)
    → length bs ≡ n
    → Bytes bs
    → length old ≡ n
    → set_bytes f old (parse_bytes (take n (tokens b',' (bytes_text bs)))) ≡ some (f bs)
Bytes-step n f old bs len r same =
    ap (set_bytes f old) (read-Bytes n bs len r) ∙ set_bytes-whole f old bs (omega arith)

is_initialized_same : (b : Bool) → not (bool_num b == 0) ≡ b
is_initialized_same true = refl
is_initialized_same false = refl

bool_num_small : (b : Bool) → bool_num b < 2 ^ 31
bool_num_small true = omega arith
bool_num_small false = omega arith

-- A description with numbers below 2^31, arrays of bytes of the right size and names without
-- separators survives: read from its text into any description, whose arrays have their size, it
-- gives the same one.
pub deserialize-serialize :
    (info old : QpInfo)
    → IsQpInfo info
    → length old.gid ≡ 16
    → length old.mac_addr ≡ 6
    → deserialize (serialize info) old ≡ some info
unfolding serialize
deserialize-serialize info old v gid_size mac_size =
    let w1 : info.qp_num % 2 ^ 32 ≡ info.qp_num = omega (arith, v.qp_num) in
    let w2 : info.lid % 2 ^ 16 ≡ info.lid = omega (arith, v.lid) in
    let w4 : info.gid_table_index % 2 ^ 8 ≡ info.gid_table_index =
      omega (arith, v.gid_table_index) in
    let w6 : info.mtu % 2 ^ 32 ≡ info.mtu = omega (arith, v.mtu) in
    let i1 = record old { qp_num = info.qp_num } in
    let i2 = record i1 { lid = info.lid } in
    let i3 = record i2 { gid = info.gid } in
    let i4 = record i3 { gid_table_index = info.gid_table_index } in
    let i5 = record i4 { mac_addr = info.mac_addr } in
    let i6 = record i5 { mtu = info.mtu } in
    let i7 = record i6 { hostname = info.hostname } in
    let i8 = record i7 { nic_name = info.nic_name } in
    put-step k_qp_num _ _ old i1 (number k_qp_num info.qp_num refl refl)
      (number_step _ info.qp_num v.qp_num ∙ ap (λ n. some (record old { qp_num = n })) w1)
    ∙ put-step k_lid _ _ i1 i2 (number k_lid info.lid refl refl)
        (number_step _ info.lid (omega (arith, v.lid)) ∙ ap (λ n. some (record i1 { lid = n })) w2)
    ∙ put-step k_gid _ _ i2 i3 (array k_gid info.gid refl refl)
        (Bytes-step 16 (λ bs. record i2 { gid = bs }) old.gid info.gid v.gid_len v.gid gid_size)
    ∙ put-step k_gid_table_index _ _ i3 i4 (number k_gid_table_index info.gid_table_index refl refl)
        (number_step _ info.gid_table_index (omega (arith, v.gid_table_index))
          ∙ ap (λ n. some (record i3 { gid_table_index = n })) w4)
    ∙ put-step k_mac _ _ i4 i5 (array k_mac info.mac_addr refl refl) (
        Bytes-step 6 (λ bs. record i4 { mac_addr = bs }) old.mac_addr info.mac_addr v.mac_len
          v.mac_addr mac_size)
    ∙ put-step k_mtu _ _ i5 i6 (number k_mtu info.mtu refl refl)
        (number_step _ info.mtu v.mtu ∙ ap (λ n. some (record i5 { mtu = n })) w6)
    ∙ put-step k_hostname _ _ i6 i7 (named k_hostname info.hostname refl refl v.hostname)
        (ap (λ t. some (record i6 { hostname = t })) (copy_text-same info.hostname v.hostname))
    ∙ put-step k_nic_name _ _ i7 i8 (named k_nic_name info.nic_name refl refl v.nic_name)
        (ap (λ t. some (record i7 { nic_name = t })) (copy_text-same info.nic_name v.nic_name))
    ∙ last-step _ _ _ i8 info (number k_is_initialized (bool_num info.is_initialized) refl refl) (
        number_step _ (bool_num info.is_initialized) (bool_num_small info.is_initialized)
        ∙ ap (λ b. some (record i8 { is_initialized = b }))
            (is_initialized_same info.is_initialized))

-- A queue pair number from 2^31 on, which its 32 bits can hold, makes `std::stoi` throw.
pub deserialize-overflow :
    (info old : QpInfo)
    → 2 ^ 31 ≤ info.qp_num
    → info.qp_num < 2 ^ 32
    → deserialize (serialize info) old ≡ none
unfolding deserialize serialize set_tokens
deserialize-overflow info old big lt =
    let p = number k_qp_num info.qp_num refl refl in
    let fails : stoi 10 (to_string info.qp_num) ≡ none =
      ground (arith, stoi-to_string info.qp_num (omega arith)) in
    let failed : set_token (field k_qp_num (to_string info.qp_num)) old ≡ none =
      set_token-field k_qp_num (to_string info.qp_num) old p.name_colon p.colon
      ∙ ap (set_value (λ v. record old { qp_num = v % 2 ^ 32 })) fails in
    ap (λ ts. set_tokens ts old)
      (tokens-piece b';' (field k_qp_num (to_string info.qp_num)) _
        (count-field b';' k_qp_num (to_string info.qp_num) p.name_semicolon refl p.semicolon))
    ∙ rw (failed, set_tokens) refl
