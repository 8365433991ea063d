-- ===== src/Kv/Examples.antt =====
-- A store of five keys.
use axio_emulator.Prelude.{ℕ, ◌≡◌, refl, true, List, [], ◌∷◌, if◌then◌else◌, none, some, arith}
use axio_emulator.Kv.{
  compare_keys, hash, Kv, bytes, find, fill, store, key_of, get, put, next_u32, next_seed, make,
}
use axio_emulator.Kv.Fill.{IsKept, make-get}

make-get_example :
    ((key : List ℕ) → IsKept 5 key (get key (make 5 7)))
    × ((key value other : List ℕ) (kv : Kv)
        → (get other (put key value kv)
            ≡ (if compare_keys key other then some value else get other kv))
          × (compare_keys key other ≡ true → hash key ≡ hash other))
make-get_example = make-get 5 7 (omega arith)

key_of_300 : key_of 300 ≡ 44 ∷ 1 ∷ 0 ∷ 0 ∷ 0 ∷ 0 ∷ 0 ∷ 0 ∷ 0 ∷ 0 ∷ 0 ∷ 0 ∷ 0 ∷ 0 ∷ 0 ∷ 0 ∷ []
unfolding key_of bytes
key_of_300 = refl

get_outside : get (key_of 5) (make 5 7) ≡ none
unfolding get make find fill put store key_of bytes
get_outside = refl

next_u32_of_one : next_u32 1 ≡ (1103527590, 0)
unfolding next_u32 next_seed
next_u32_of_one = refl
