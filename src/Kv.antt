-- ===== src/Kv.antt =====
-- src/util/kv.h and rand.h: the key-value store and the generator of random numbers. A key is 16
-- bytes and a value 64; `std::unordered_map` is the list of its pairs, found by `CompareFunc`.
-- `size_t` is 64 bits wide.
pub mod Fill
mod Examples
use axio_emulator.Prelude.{
  ℕ, zero, suc, ◌+◌, ◌*◌, ◌/◌, ◌%◌, ◌^◌, List, [], ◌∷◌, ◌++◌, Bool, true, false, Option, none, some,
  take, ◌==◌, if◌then◌else◌,
}

-- `FastRand`, by its seed: the seed after a call.
unfoldable pub next_seed : ℕ → ℕ
next_seed seed = (seed * 1103515245 + 12345) % 2 ^ 64

unfoldable pub next_u64 : ℕ → ℕ × ℕ
next_u64 seed = (next_seed seed, next_seed seed)

unfoldable pub next_u32 : ℕ → ℕ × ℕ
next_u32 seed = (next_seed seed, next_seed seed / 2 ^ 32)

unfoldable pub next_u16 : ℕ → ℕ × ℕ
next_u16 seed = (next_seed seed, next_seed seed / 2 ^ 48)

unfoldable pub next_u8 : ℕ → ℕ × ℕ
next_u8 seed = (next_seed seed, next_seed seed / 2 ^ 56)

pub record Kv : Type 0 where
  pub kvmap : List (List ℕ × List ℕ)
  pub max_key : ℕ
  pub rand : ℕ

-- The loop that writes the bytes of a number, the lowest first.
unfoldable pub bytes : ℕ → ℕ → List ℕ
bytes zero k = []
bytes (suc n) k = k % 2 ^ 8 ∷ bytes n (k / 2 ^ 8)

unfoldable pub key_of : ℕ → List ℕ
key_of i = bytes 16 i

-- 0x12345 and 0x10501.
unfoldable pub value_of : ℕ → List ℕ
value_of i = bytes 64 ((i * 74565 + 66817) % 2 ^ 64)

-- `HashFunc`: its loop, and the whole.
unfoldable pub hash_from : ℕ → List ℕ → ℕ
hash_from h [] = h
hash_from h (b ∷ bs) = hash_from ((h * 271 + b) % 2 ^ 64) bs

unfoldable pub hash : List ℕ → ℕ
hash key = hash_from 0 key

-- `CompareFunc`, its loop on the bytes of two keys, which are equally many.
abbrev pub compare_keys : List ℕ → List ℕ → Bool
compare_keys [] [] = true
compare_keys [] (k ∷ ks) = false
compare_keys (j ∷ js) [] = false
compare_keys (j ∷ js) (k ∷ ks) = let rest = compare_keys js ks in if j == k then rest else false

-- `kvmap[key] = value`.
unfoldable pub store : List ℕ → List ℕ → List (List ℕ × List ℕ) → List (List ℕ × List ℕ)
store key value [] = (key, value) ∷ []
store key value (p ∷ ps) =
    let rest = store key value ps in if compare_keys p.0 key then (p.0, value) ∷ ps else p ∷ rest

unfoldable pub find : List ℕ → List (List ℕ × List ℕ) → Option (List ℕ)
find key [] = none
find key (p ∷ ps) = let rest = find key ps in if compare_keys p.0 key then some p.1 else rest

unfoldable pub put : List ℕ → List ℕ → Kv → Kv
put key value kv = record kv { kvmap = store key value kv.kvmap }

-- `beyond` are the 12 bytes that are read past the end of `key_32`. `none` is the division by zero.
unfoldable pub put_test : List ℕ → List ℕ → Kv → Option Kv
put_test beyond value kv =
    let (seed, n) = next_u32 kv.rand in
    if kv.max_key == 0
    then none
    else some (put (bytes 4 (n % kv.max_key) ++ take 12 beyond) value (record kv { rand = seed }))

unfoldable pub get : List ℕ → Kv → Option (List ℕ)
get key kv = find key kv.kvmap

-- The loop of the constructor, for `n` keys from number `i` on.
unfoldable pub fill : ℕ → ℕ → Kv → Kv
fill zero i kv = kv
fill (suc n) i kv = fill n (i + 1) (put (key_of i) (value_of i) kv)

unfoldable pub make : ℕ → ℕ → Kv
make initial_size seed =
    fill initial_size 0 (record { kvmap = []; max_key = initial_size; rand = seed })
