-- ===== src/Text/Number.antt =====
-- `stoi` undoes `to_string` below 2^31, and fails from there on.
use axio_emulator.Prelude.{
  ℕ, zero, suc, ◌+◌, ◌*◌, ◌/◌, ◌%◌, ◌^◌, ◌<◌, ◌≡◌, ◌≢◌, refl, ap, ◌∙◌, List, [], ◌∷◌, ◌++◌, map,
  true, false, none, some, length, length-append, count, ltb, ◌==◌, if◌then◌else◌, Bool-cases, inl,
  inr, arith,
}
use axio_emulator.Text.{
  digits_of, to_char, to_string, skip_space, sign, digit_value, digits, value, to_int, stoi,
}

-- The first number of more than `fuel + 1` digits.
abbrev limit : ℕ → ℕ
limit zero = 10
limit (suc fuel) = 10 * limit fuel

value-append : (acc d : ℕ) (ds : List ℕ) → value 10 acc (ds ++ (d ∷ [])) ≡ value 10 acc ds * 10 + d
unfolding value
value-append acc d [] = refl
value-append acc d (e ∷ es) = value-append (acc * 10 + e) d es

value-digits_of : (fuel n : ℕ) → n < limit fuel → value 10 0 (digits_of fuel n) ≡ n
unfolding value digits_of
value-digits_of zero n lt = omega arith
value-digits_of (suc fuel) n lt = elim (Bool-cases (ltb n 10)) [
  | inl e ↦ rw e (omega arith)
  | inr e ↦ rw e (
      value-append 0 (n % 10) (digits_of fuel (n / 10))
      ∙ ground (arith, value-digits_of fuel (n / 10) (omega arith)))
]

pub data Decimal : List ℕ → Type 0 where
  no_digit : Decimal []
  digit : {d : ℕ} {ds : List ℕ} → d < 10 → Decimal ds → Decimal (d ∷ ds)

Decimal-append : {ds : List ℕ} (d : ℕ) → d < 10 → Decimal ds → Decimal (ds ++ (d ∷ []))
Decimal-append d lt no_digit = digit lt no_digit
Decimal-append d lt (digit small r) = digit small (Decimal-append d lt r)

digits_of-Decimal : (fuel n : ℕ) → Decimal (digits_of fuel n)
unfolding digits_of
digits_of-Decimal zero n = digit (omega arith) no_digit
digits_of-Decimal (suc fuel) n = elim (Bool-cases (ltb n 10)) [
  | inl e ↦ rw e (digit (ground arith) no_digit)
  | inr e ↦ rw e (Decimal-append (n % 10) (omega arith) (digits_of-Decimal fuel (n / 10)))
]

digits_of_ne : (fuel n : ℕ) → length (digits_of fuel n) ≢ 0
unfolding digits_of
digits_of_ne zero n = λ e. omega (arith, e)
digits_of_ne (suc fuel) n =
    λ e. ground (arith, e, length-append (digits_of fuel (n / 10)) (n % 10 ∷ []))

digits-map : (ds : List ℕ) → Decimal ds → digits 10 (map to_char ds) ≡ ds
unfolding digits
digits-map [] no_digit = refl
digits-map (d ∷ ds) (digit lt r) =
    let ih = digits-map ds r in
    let v : digit_value (to_char d) ≡ d = ground arith in
    let small : ltb (digit_value (to_char d)) 10 ≡ true = ground (arith, v) in
    rw (small, v, ih) refl

start : (ds : List ℕ) → Decimal ds → sign (skip_space (map to_char ds)) ≡ (false, map to_char ds)
unfolding skip_space
start [] no_digit = refl
start (d ∷ ds) (digit lt r) = ground arith

stoi-map :
    (ds : List ℕ)
    → Decimal ds
    → length ds ≢ 0
    → stoi 10 (map to_char ds) ≡ to_int false (value 10 0 ds)
unfolding stoi
stoi-map ds r ne =
    let some_digit : (length ds == 0) ≡ false = ground (arith, ne) in
    rw (start ds r, digits-map ds r, some_digit) refl

-- Reading back a printed number: an int below 2^31, an exception from 2^31 on.
pub stoi-to_string :
    (n : ℕ) → n < 2 ^ 64 → stoi 10 (to_string n) ≡ (if ltb n (2 ^ 31) then some n else none)
unfolding to_string
stoi-to_string n lt =
    let v = value-digits_of 19 n (omega arith) in
    stoi-map (digits_of 19 n) (digits_of-Decimal 19 n) (digits_of_ne 19 n) ∙ ap (to_int false) v

-- A printed number has digits only.
count-map : (c : ℕ) (ds : List ℕ) → 57 < c → Decimal ds → count c (map to_char ds) ≡ 0
count-map c [] lt no_digit = refl
count-map c (d ∷ ds) lt (digit small r) = ground (arith, count-map c ds lt r)

pub count-to_string : (c n : ℕ) → 57 < c → count c (to_string n) ≡ 0
unfolding to_string
count-to_string c n lt = count-map c (digits_of 19 n) lt (digits_of-Decimal 19 n)

count-map_below : (c : ℕ) (ds : List ℕ) → c < 48 → count c (map to_char ds) ≡ 0
count-map_below c [] lt = refl
count-map_below c (d ∷ ds) lt = ground (arith, count-map_below c ds lt)

pub count-to_string_below : (c n : ℕ) → c < 48 → count c (to_string n) ≡ 0
unfolding to_string
count-to_string_below c n lt = count-map_below c (digits_of 19 n) lt
