-- ===== src/QpInfo/Fields.antt =====
-- One field of the text: its number, its array of bytes or its name, written and read back.
use mathlib.Core.List.{append-nil}
use axio_emulator.Prelude.{
  ℕ, zero, suc, ◌%◌, ◌^◌, ◌≤◌, ◌<◌, ◌≡◌, refl, ap, ◌∙◌, List, [], ◌∷◌, ◌++◌, map, false, some,
  length, length-map, get_or, take, drop, count, count-append, ◌==◌, arith,
}
use axio_emulator.Text.{tokens, to_string, stoi}
use axio_emulator.Text.Split.{tokens-piece, tokens-last, tokens-join, join, Apart, no_piece, piece}
use axio_emulator.Text.Number.{stoi-to_string, count-to_string, count-to_string_below}
use axio_emulator.QpInfo.{
  QpInfo, max_hostname_len, c_str, field, bytes_text, parse_bytes, set_bytes, set_field, set_token,
  set_tokens, copy_text,
}

-- A name that survives: no separator, no zero, and room in the array.
pub record IsName (name : List ℕ) : Type 0 where
  pub no_semicolon : count b';' name ≡ 0
  pub no_colon : count b':' name ≡ 0
  pub no_zero : count 0 name ≡ 0
  pub fits : length name < max_hostname_len

pub data Bytes : List ℕ → Type 0 where
  no_byte : Bytes []
  byte : {b : ℕ} {bs : List ℕ} → b < 2 ^ 8 → Bytes bs → Bytes (b ∷ bs)

pub record IsQpInfo (info : QpInfo) : Type 0 where
  pub qp_num : info.qp_num < 2 ^ 31
  pub lid : info.lid < 2 ^ 16
  pub gid_len : length info.gid ≡ 16
  pub gid : Bytes info.gid
  pub gid_table_index : info.gid_table_index < 2 ^ 8
  pub mtu : info.mtu < 2 ^ 31
  pub mac_len : length info.mac_addr ≡ 6
  pub mac_addr : Bytes info.mac_addr
  pub hostname : IsName info.hostname
  pub nic_name : IsName info.nic_name

pub small_int : (n : ℕ) → n < 2 ^ 31 → stoi 10 (to_string n) ≡ some n
small_int n lt = ground (arith, stoi-to_string n (omega arith))

parse_bytes-map : (bs : List ℕ) → Bytes bs → parse_bytes (map to_string bs) ≡ some bs
unfolding parse_bytes
parse_bytes-map [] no_byte = refl
parse_bytes-map (b ∷ bs) (byte lt r) =
    let wrap : b % 2 ^ 8 ≡ b = omega arith in
    rw (small_int b (omega arith), parse_bytes-map bs r, wrap) refl

Apart-map : (bs : List ℕ) → Apart b',' (map to_string bs)
Apart-map [] = no_piece
Apart-map (b ∷ bs) = piece (count-to_string_below b',' b (omega arith)) (Apart-map bs)

pub take_short {ℓ} : {A : Type ℓ} (n : ℕ) (xs : List A) → length xs ≤ n → take n xs ≡ xs
take_short zero [] e = refl
take_short zero (x ∷ xs) e = absurd (omega arith)
take_short (suc n) [] e = refl
take_short (suc n) (x ∷ xs) e = ap (◌∷◌ x) (take_short n xs (omega arith))

drop_all {ℓ} : {A : Type ℓ} (n : ℕ) (xs : List A) → length xs ≤ n → drop n xs ≡ []
drop_all zero [] e = refl
drop_all zero (x ∷ xs) e = absurd (omega arith)
drop_all (suc n) [] e = refl
drop_all (suc n) (x ∷ xs) e = drop_all n xs (omega arith)

-- The array read back from its text.
pub read-Bytes :
    (n : ℕ) (bs : List ℕ)
    → length bs ≡ n
    → Bytes bs
    → parse_bytes (take n (tokens b',' (bytes_text bs))) ≡ some bs
read-Bytes n bs len r =
    ap (λ ts. parse_bytes (take n ts)) (tokens-join b',' (map to_string bs) (Apart-map bs))
    ∙ ap parse_bytes (take_short n (map to_string bs) (omega (arith, length-map to_string bs, len)))
    ∙ parse_bytes-map bs r

pub set_bytes-whole :
    (f : List ℕ → QpInfo) (old bs : List ℕ)
    → length old ≤ length bs
    → set_bytes f old (some bs) ≡ some (f bs)
set_bytes-whole f old bs le =
    ap (λ rest. some (f (bs ++ rest))) (drop_all (length bs) old le)
    ∙ ap (λ xs. some (f xs)) (append-nil bs)

pub c_str_same : (cs : List ℕ) → count 0 cs ≡ 0 → c_str cs ≡ cs
unfolding c_str
c_str_same [] e = refl
c_str_same (c ∷ cs) e = ground (arith, c_str_same cs (ground arith))

pub copy_text-same : (name : List ℕ) → IsName name → copy_text max_hostname_len name ≡ name
copy_text-same name v =
    ap (take 63) (c_str_same name v.no_zero) ∙ take_short 63 name (omega (arith, v.fits))

-- A token with its name and a text without colons sets that field.
pub set_token-field :
    (name text : List ℕ) (info : QpInfo)
    → count b':' name ≡ 0
    → count b':' text ≡ 0
    → set_token (field name text) info ≡ set_field name text info
unfolding set_token tokens
set_token-field name [] info e1 e2 =
    ap (λ ps. set_field (get_or ps 0 []) (get_or ps 1 []) info) (tokens-piece b':' name [] e1)
set_token-field name (c ∷ cs) info e1 e2 =
    ap (λ ps. set_field (get_or ps 0 []) (get_or ps 1 []) info)
      (tokens-piece b':' name (c ∷ cs) e1 ∙ ap (◌∷◌ name) (tokens-last b':' c cs e2))

pub set_tokens-step :
    (t : List ℕ) (ts : List (List ℕ)) (info info' : QpInfo)
    → set_token t info ≡ some info'
    → set_tokens (t ∷ ts) info ≡ set_tokens ts info'
unfolding set_tokens
set_tokens-step t ts info info' e = rw (e, set_tokens) refl

pub count-field :
    (c : ℕ) (name text : List ℕ)
    → count c name ≡ 0
    → (b':' == c) ≡ false
    → count c text ≡ 0
    → count c (field name text) ≡ 0
count-field c name text e1 ne e2 = ground (arith, count-append c name (b':' ∷ text))

count-join :
    (c : ℕ) (xss : List (List ℕ)) → (b',' == c) ≡ false → Apart c xss → count c (join b',' xss) ≡ 0
unfolding join
count-join c [] ne no_piece = refl
count-join c (xs ∷ xss) ne (piece e a) =
    ground (arith, count-append c xs (b',' ∷ join b',' xss), count-join c xss ne a)

Apart-numbers : (c : ℕ) (bs : List ℕ) → 57 < c → Apart c (map to_string bs)
Apart-numbers c [] lt = no_piece
Apart-numbers c (b ∷ bs) lt = piece (count-to_string c b lt) (Apart-numbers c bs lt)

pub count-bytes : (c : ℕ) (bs : List ℕ) → 57 < c → count c (bytes_text bs) ≡ 0
count-bytes c bs lt = count-join c (map to_string bs) (ground arith) (Apart-numbers c bs lt)
