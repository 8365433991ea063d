-- ===== src/Kv/Fill.antt =====
-- What the store gives back, and the keys that it starts with.
use mathlib.Core.Path.{subst}
use native.Mathlib.Decide.{dec_lt}
use axio_emulator.Prelude.{
  ℕ, zero, suc, ◌+◌, ◌*◌, ◌/◌, ◌%◌, ◌^◌, ◌≤◌, ◌<◌, ◌≡◌, ◌≢◌, refl, sym, ap, ap₂, ◌∙◌, List, [], ◌∷◌,
  true, false, Option, none, some, Bool-cases, inl, inr, ◌⊎◌, ◌==◌, if◌then◌else◌, arith,
}
use axio_emulator.Kv.{
  Kv, bytes, key_of, value_of, compare_keys, hash, store, find, put, get, fill, make,
}

compare_keys_refl : (xs : List ℕ) → compare_keys xs xs ≡ true
compare_keys_refl [] = refl
compare_keys_refl (x ∷ xs) = ground (arith, compare_keys_refl xs)

compare_keys_sound : (xs ys : List ℕ) → compare_keys xs ys ≡ true → xs ≡ ys
compare_keys_sound [] [] e = refl
compare_keys_sound [] (y ∷ ys) e = absurd (ground (arith, e))
compare_keys_sound (x ∷ xs) [] e = absurd (ground (arith, e))
compare_keys_sound (x ∷ xs) (y ∷ ys) e =
    let head : x ≡ y = ground (arith, e) in
    let rest : compare_keys xs ys ≡ true = ground (arith, e) in
    ap₂ ◌∷◌ head (compare_keys_sound xs ys rest)

-- How many numbers have at most `n` bytes.
abbrev room : ℕ → ℕ
room zero = 1
room (suc n) = 2 ^ 8 * room n

-- Numbers of at most `n` bytes with the same bytes are the same.
compare_keys-bytes :
    (n a b : ℕ) → a < room n → b < room n → compare_keys (bytes n a) (bytes n b) ≡ true → a ≡ b
unfolding bytes
compare_keys-bytes zero a b la lb e = omega (arith, la, lb)
compare_keys-bytes (suc n) a b la lb e = elim (Bool-cases (a % 2 ^ 8 == b % 2 ^ 8)) [
  | inl low ↦
      let more : compare_keys (bytes n (a / 2 ^ 8)) (bytes n (b / 2 ^ 8)) ≡ true =
        ground (arith, e, low) in
      let high =
        compare_keys-bytes n (a / 2 ^ 8) (b / 2 ^ 8) (omega (arith, la)) (omega (arith, lb)) more in
      let digit : a % 2 ^ 8 ≡ b % 2 ^ 8 = ground (arith, low) in omega (arith, high, digit)
  | inr low ↦ absurd (ground (arith, e, low))
]

compare_keys-key_of :
    (i j : ℕ) → i < 2 ^ 64 → j < 2 ^ 64 → i ≢ j → compare_keys (key_of i) (key_of j) ≡ false
unfolding key_of
compare_keys-key_of i j li lj ne = elim (Bool-cases (compare_keys (bytes 16 i) (bytes 16 j))) [
  | inl e ↦ absurd (ne (compare_keys-bytes 16 i j (omega (arith, li)) (omega (arith, lj)) e))
  | inr e ↦ e
]

find-store_self :
    (key value : List ℕ) (ps : List (List ℕ × List ℕ)) → find key (store key value ps) ≡ some value
unfolding find store
find-store_self key value [] = rw (compare_keys_refl key) refl
find-store_self key value (p ∷ ps) = elim (Bool-cases (compare_keys p.0 key)) [
  | inl e ↦ rw (e, e) refl
  | inr e ↦ rw (e, e) (find-store_self key value ps)
]

-- A key that `CompareFunc` tells apart is left alone.
find-store_ne :
    (key other value : List ℕ) (ps : List (List ℕ × List ℕ))
    → compare_keys key other ≡ false
    → find other (store key value ps) ≡ find other ps
unfolding find store
find-store_ne key other value [] ne = rw ne refl
find-store_ne key other value (p ∷ ps) ne = elim (Bool-cases (compare_keys p.0 key)) [
  | inl e ↦ elim (Bool-cases (compare_keys p.0 other)) [
    | inl o ↦
        let both = sym (compare_keys_sound p.0 key e) ∙ compare_keys_sound p.0 other o in
        absurd
          (ground (arith, subst (λ k. compare_keys key k ≡ true) both (compare_keys_refl key), ne))
    | inr o ↦ rw (e, o) refl
  ]
  | inr e ↦ rw e (
      ap (λ r. if compare_keys p.0 other then some p.1 else r)
        (find-store_ne key other value ps ne))
]

fill-other :
    (n i j : ℕ) (kv : Kv)
    → i + n ≤ 2 ^ 64
    → j < 2 ^ 64
    → (j < i) ⊎ (i + n ≤ j)
    → get (key_of j) (fill n i kv) ≡ get (key_of j) kv
unfolding fill get put
fill-other zero i j kv le lj out = refl
fill-other (suc n) i j kv le lj out =
    fill-other n (i + 1) j (put (key_of i) (value_of i) kv) (omega arith) lj later
    ∙ find-store_ne (key_of i) (key_of j) (value_of i) kv.kvmap
        (compare_keys-key_of i j (omega arith) lj apart)
  where
    later : (j < i + 1) ⊎ (i + 1 + n ≤ j)
    later = elim out [ inl lt ↦ inl (omega arith) | inr ge ↦ inr (omega arith) ]

    apart : i ≢ j
    apart e = elim out [ inl lt ↦ omega arith | inr ge ↦ omega arith ]

fill-own :
    (n i k : ℕ) (kv : Kv)
    → i + n ≤ 2 ^ 64
    → k < n
    → get (key_of (i + k)) (fill n i kv) ≡ some (value_of (i + k))
unfolding fill get put
fill-own zero i k kv le lt = absurd (omega arith)
fill-own (suc n) i zero kv le lt =
    fill-other n (i + 1) (i + 0) (put (key_of i) (value_of i) kv) (omega arith) (omega arith)
      (inl (omega arith))
    ∙ ap (λ j. find (key_of j) (store (key_of i) (value_of i) kv.kvmap)) {x = i + 0} {y = i}
        (omega arith)
    ∙ find-store_self (key_of i) (value_of i) kv.kvmap
    ∙ ap (λ j. some (value_of j)) {x = i} {y = i + 0} (omega arith)
fill-own (suc n) i (suc k) kv le lt =
    let same_index : i + suc k ≡ i + 1 + k = omega arith in
    rw same_index
      (fill-own n (i + 1) k (put (key_of i) (value_of i) kv) (omega arith) (omega arith))

-- A key that `CompareFunc` tells from each of the keys put is not there.
fill-none :
    (n i : ℕ) (key : List ℕ) (kv : Kv)
    → ((j : ℕ) → j < n → compare_keys (key_of (i + j)) key ≡ false)
    → get key (fill n i kv) ≡ get key kv
unfolding fill get put
fill-none zero i key kv apart = refl
fill-none (suc n) i key kv apart =
    fill-none n (i + 1) key (put (key_of i) (value_of i) kv) (λ j lt.
      ap (λ m. compare_keys (key_of m) key) {x = i + 1 + j} {y = i + suc j} (omega arith)
      ∙ apart (suc j) (omega arith))
    ∙ find-store_ne (key_of i) key (value_of i) kv.kvmap (
        ap (λ m. compare_keys (key_of m) key) {x = i} {y = i + 0} (omega arith)
        ∙ apart 0 (omega arith))

-- What `get` gives for a key in a new store of `n` keys: the value of the number below `n` whose key it
-- is, or nothing when `CompareFunc` tells it from the key of each of them.
pub data IsKept (n : ℕ) (key : List ℕ) : Option (List ℕ) → Type 0 where
  own : (i : ℕ) → i < n → key_of i ≡ key → IsKept n key (some (value_of i))
  other : ((i : ℕ) → i < n → compare_keys (key_of i) key ≡ false) → IsKept n key none

search_keys :
    (n : ℕ) (key : List ℕ)
    → ((i : ℕ) × (i < n) × (key_of i ≡ key))
      ⊎ ((i : ℕ) → i < n → compare_keys (key_of i) key ≡ false)
search_keys zero key = inr (λ i lt. elim lt [ ])
search_keys (suc n) key = elim (search_keys n key) [
  | inl (i, lt, e) ↦ inl (i, omega arith, e)
  | inr apart ↦ elim (Bool-cases (compare_keys (key_of n) key)) [
    | inl e ↦ inl (n, omega arith, compare_keys_sound (key_of n) key e)
    | inr e ↦ inr (λ i lt. elim (dec_lt i n) [
      | yes before ↦ apart i before
      | no last ↦ ap (λ j. compare_keys (key_of j) key) {x = i} {y = n} (omega arith) ∙ e
    ])
  ]
]

make-IsKept : (n seed : ℕ) (key : List ℕ) → n ≤ 2 ^ 64 → IsKept n key (get key (make n seed))
unfolding make get find
make-IsKept n seed key le =
    let empty : Kv = record { kvmap = []; max_key = n; rand = seed } in
    elim (search_keys n key) [
      | inl (i, lt, e) ↦ subst (IsKept n key) (sym (found i lt e empty)) (own i lt e)
      | inr apart ↦ subst (IsKept n key) (sym (absent apart)) (other apart)
    ]
  where
    found : (i : ℕ) → i < n → key_of i ≡ key → (kv : Kv) → get key (fill n 0 kv) ≡ some (value_of i)
    found i lt e kv =
        ap (λ k. get k (fill n 0 kv)) (sym e)
        ∙ subst (λ j. get (key_of j) (fill n 0 kv) ≡ some (value_of j)) {x = 0 + i} {y = i}
            (omega arith) (fill-own n 0 i kv (omega arith) lt)

    absent :
        ((i : ℕ) → i < n → compare_keys (key_of i) key ≡ false)
        → get key (fill n 0 (record { kvmap = []; max_key = n; rand = seed })) ≡ none
    absent apart = fill-none n 0 key _ (λ j lt.
        ap (λ m. compare_keys (key_of m) key) {x = 0 + j} {y = j} (omega arith) ∙ apart j lt)

-- A new store of `n` keys, for which 64 bits are enough, holds the keys of the numbers below `n`, each
-- with its own value, and no key that `CompareFunc` tells from each of them. After any `put`, `get`
-- gives the value put for the keys that `CompareFunc` takes for that key, and for the others what it
-- gave before; keys that it takes for the same have the same hash.
pub make-get :
    (n seed : ℕ)
    → n ≤ 2 ^ 64
    → ((key : List ℕ) → IsKept n key (get key (make n seed)))
      × ((key value other : List ℕ) (kv : Kv)
          → (get other (put key value kv)
              ≡ (if compare_keys key other then some value else get other kv))
            × (compare_keys key other ≡ true → hash key ≡ hash other))
unfolding get put
make-get n seed le = (
  λ key. make-IsKept n seed key le,
  λ key value other kv. (
    elim (Bool-cases (compare_keys key other)) [
      | inl e ↦ rw e (
          ap (λ k. find k (store key value kv.kvmap)) (sym (compare_keys_sound key other e))
          ∙ find-store_self key value kv.kvmap)
      | inr ne ↦ rw ne (find-store_ne key other value kv.kvmap ne)
    ],
    λ e. ap hash (compare_keys_sound key other e),
  ),
)
