-- ===== src/Text.antt =====
-- What the program uses of C++'s strings: `std::getline` with a delimiter, `std::to_string` and
-- `std::stoi`. A text is the list of its characters' codes.
pub mod Split
pub mod Number
use Prim.Native.Char.{code}
use Prim.Native.String.{String}
use axio_emulator.Prelude.{
  ℕ, zero, suc, ◌+◌, ◌-◌, ◌*◌, ◌/◌, ◌%◌, ◌^◌, List, [], ◌∷◌, ◌++◌, map, Bool, true, false, ◌&&◌,
  ◌||◌, Option, none, some, length, ltb, leb, ◌==◌, if◌then◌else◌,
}

abbrev pub codes : String → List ℕ
codes String.[] = []
codes (String.◌∷◌ c s) = code c ∷ codes s

-- `==` of two strings.
abbrev pub same : List ℕ → List ℕ → Bool
same [] [] = true
same [] (d ∷ ds) = false
same (c ∷ cs) [] = false
same (c ∷ cs) (d ∷ ds) = (c == d) && same cs ds

abbrev pub add_char : ℕ → List (List ℕ) → List (List ℕ)
add_char c [] = (c ∷ []) ∷ []
add_char c (t ∷ ts) = (c ∷ t) ∷ ts

-- The tokens that a loop `while (std::getline(stream, token, delimiter))` reads.
unfoldable pub tokens : ℕ → List ℕ → List (List ℕ)
tokens delimiter [] = []
tokens delimiter (c ∷ cs) =
    let ts = tokens delimiter cs in if c == delimiter then [] ∷ ts else add_char c ts

-- The decimal digits, for numbers of at most `fuel + 1` of them.
unfoldable pub digits_of : ℕ → ℕ → List ℕ
digits_of zero n = n % 10 ∷ []
digits_of (suc fuel) n =
    let rest = digits_of fuel (n / 10) in if ltb n 10 then n ∷ [] else rest ++ (n % 10 ∷ [])

abbrev pub to_char : ℕ → ℕ
to_char digit = 48 + digit

-- `std::to_string`, for numbers of 64 bits.
unfoldable pub to_string : ℕ → List ℕ
to_string n = map to_char (digits_of 19 n)

abbrev pub is_space : ℕ → Bool
is_space c = (c == 32) || (leb 9 c && leb c 13)

unfoldable pub skip_space : List ℕ → List ℕ
skip_space [] = []
skip_space (c ∷ cs) = let rest = skip_space cs in if is_space c then rest else c ∷ cs

-- An optional sign: whether it is a minus, and what follows.
abbrev pub sign : List ℕ → Bool × List ℕ
sign [] = (false, [])
sign (c ∷ cs) = if c == b'-' then (true, cs) else if c == b'+' then (false, cs) else (false, c ∷ cs)

-- The value of a letter or digit, 99 for other characters.
abbrev pub digit_value : ℕ → ℕ
digit_value c =
    if leb 48 c && leb c 57
    then c - 48
    else if leb 97 c && leb c 122
    then c - 87
    else if leb 65 c && leb c 90
    then c - 55
    else 99

unfoldable pub digits : ℕ → List ℕ → List ℕ
digits base [] = []
digits base (c ∷ cs) =
    let rest = digits base cs in if ltb (digit_value c) base then digit_value c ∷ rest else []

unfoldable pub value : ℕ → ℕ → List ℕ → ℕ
value base acc [] = acc
value base acc (d ∷ ds) = value base (acc * base + d) ds

-- The int of `v` with a sign, as the 32 bits of its two's complement; `none` is
-- `std::out_of_range`.
abbrev pub to_int : Bool → ℕ → Option ℕ
to_int true v = if leb v (2 ^ 31) then some ((2 ^ 32 - v) % 2 ^ 32) else none
to_int false v = if ltb v (2 ^ 31) then some v else none

-- `std::stoi(text, nullptr, base)` for base 10, and for base 16 without a prefix 0x; `none` is an
-- exception.
unfoldable pub stoi : ℕ → List ℕ → Option ℕ
stoi base text =
    let (minus, rest) = sign (skip_space text) in
    let ds = digits base rest in if length ds == 0 then none else to_int minus (value base 0 ds)
