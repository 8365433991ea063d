-- ===== src/HugeAlloc.antt =====
-- src/dispatcher_impl/roce/huge_alloc.h and huge_alloc.cc: the buddy-like allocator of registered
-- memory, with a freelist for each of 18 size classes. `none` as the outcome of an operation is a
-- failed `assert`. The `bsrl` instruction of `msb_index` (src/util/math_utils.h) is a parameter.
-- A Buffer on a freelist is owned by it alone, so it stands for its pointer.
pub mod Classes
pub mod Sums
pub mod Pop
pub mod Split
pub mod Alloc
pub mod History
pub mod Kept
pub mod Owners
pub mod Region
pub mod Bsr
mod Examples
use axio_emulator.Prelude.{
  ℕ, zero, suc, ◌+◌, ◌-◌, ◌*◌, ◌/◌, ◌%◌, ◌^◌, List, [], ◌∷◌, Bool, true, false, Option, none, some,
  ltb, leb, ◌==◌, ◌&&◌, if◌then◌else◌,
}

-- `Buffer::state_` (src/dispatcher_impl/roce/buffer.h).
pub data BufferState : Type 0 where
  posted app_owned free : BufferState

pub record Buffer : Type 0 where
  pub buf : ℕ
  pub class_size : ℕ
  pub lkey : ℕ
  pub length : ℕ
  pub state : BufferState

-- `Buffer(uint8_t *buf, size_t class_size, uint32_t lkey)`.
abbrev pub new_buffer : ℕ → ℕ → ℕ → Buffer
new_buffer buf class_size lkey = record {
  buf = buf;
  class_size = class_size;
  lkey = lkey;
  length = 0;
  state = free;
}

abbrev pub num_classes : ℕ
num_classes = 18

abbrev pub min_class_size : ℕ
min_class_size = 64

abbrev pub max_class_size : ℕ
max_class_size = 8 * 2 ^ 20

-- The head of a freelist is the back of the vector.
pub record HugeAlloc : Type 0 where
  pub freelist : ℕ → List Buffer
  pub user_alloc_tot : ℕ

unfoldable pub class_max_size : ℕ → ℕ
class_max_size i = min_class_size * 2 ^ i

abbrev pub update {ℓ} : {A : Type ℓ} → (ℕ → A) → ℕ → A → ℕ → A
update f i a j = if j == i then a else f j

infixl 5 ◌>>=◌
abbrev pub ◌>>=◌ {ℓ κ} : {A : Type ℓ} {B : Type κ} → Option A → (A → Option B) → Option B
none >>= f = none
some a >>= f = f a

abbrev pub is_empty : List Buffer → Bool
is_empty [] = true
is_empty (b ∷ bs) = false

-- `back` and `pop_back`, with the `assert` on the class that follows them.
pub pop_class : HugeAlloc → ℕ → Option (Buffer × HugeAlloc)
pop_class h i = elim (h.freelist i) [
  | [] ↦ none
  | b ∷ bs ↦
      if b.class_size == class_max_size i
      then some (b, record h { freelist = update h.freelist i bs })
      else none
]

pub push : HugeAlloc → ℕ → Buffer → HugeAlloc
push h i b = record h { freelist = update h.freelist i (b ∷ h.freelist i) }

pub halve : HugeAlloc → ℕ → Buffer → HugeAlloc
halve h i b =
    push (push h i (new_buffer b.buf (b.class_size / 2) b.lkey)) i
      (new_buffer (b.buf + b.class_size / 2) (b.class_size / 2) b.lkey)

pub split : ℕ → HugeAlloc → Option HugeAlloc
split zero h = none
split (suc i) h =
    if is_empty (h.freelist i)
    then (do (b, h') ← pop_class h (suc i); some (halve h' i b))
    else none

pub alloc_from_class : ℕ → HugeAlloc → Option (Buffer × HugeAlloc)
alloc_from_class c h =
    if ltb c num_classes
    then (do
      (b, h') ← pop_class h c
      some (b, record h' { user_alloc_tot = (h'.user_alloc_tot + b.class_size) % 2 ^ 64 }))
    else none

-- `for (; next_class < k_num_classes; next_class++) if (!freelist_[next_class].empty()) break;`
-- over the classes that are left.
pub find_class : HugeAlloc → ℕ → ℕ → ℕ
find_class h zero next = next
find_class h (suc left) next =
    let rest = find_class h left (next + 1) in if is_empty (h.freelist next) then rest else next

-- `while (next_class != size_class) { split(next_class); next_class--; }`, over their distance.
pub split_down : ℕ → ℕ → HugeAlloc → Option HugeAlloc
split_down zero c h = some h
split_down (suc n) c h = split (suc (n + c)) h >>= split_down n c

-- `get_class_slow`, with fuel.
pub get_class_slow : ℕ → ℕ → ℕ → ℕ → ℕ
get_class_slow zero size size_class class_lim = size_class
get_class_slow (suc fuel) size size_class class_lim =
    let rest = get_class_slow fuel size (size_class + 1) (class_lim * 2) in
    if ltb class_lim size then rest else size_class

module _ (bsr : ℕ → ℕ) where
  -- `msb_index`: `bsrl` of `x << 1`, for an `int`.
  pub msb_index : ℕ → ℕ
  msb_index x = bsr (x * 2 % 2 ^ 32)

  pub get_class : ℕ → ℕ
  unfolding msb_index
  get_class size = msb_index ((size - 1) / 2 ^ 6)

  -- The guards here and in `free_buf` are the `assert`s of `get_class` and of the function itself. The
  -- pointer is `none` for `nullptr`.
  pub alloc : HugeAlloc → ℕ → Option (Option Buffer × HugeAlloc)
  alloc h size =
      let c = get_class size in
      if leb 1 size && leb size max_class_size && ltb c num_classes
      then if is_empty (h.freelist c)
        then (let next = find_class h (num_classes - (c + 1)) (c + 1) in
            if next == num_classes then some (none, h) else (do
              h' ← split_down (next - c) c h
              (b, h'') ← alloc_from_class c h'
              some (some b, h'')))
        else (do (b, h') ← alloc_from_class c h; some (some b, h'))
      else none

  pub free_buf : HugeAlloc → Buffer → Option HugeAlloc
  free_buf h b =
      if b.buf == 0
      then none
      else (let c = get_class b.class_size in
          if leb 1 b.class_size
            && leb b.class_size max_class_size
            && (class_max_size c == b.class_size)
          then some (record (push h c (record b { length = 0; state = free })) {
            user_alloc_tot = (h.user_alloc_tot + 2 ^ 64 - b.class_size) % 2 ^ 64;
          })
          else none)

-- The loop of `add_raw_buffer` and `reserve_hugepages` for whole blocks of the largest class: `i` from 0 to `num_buffers`.
pub add_blocks : HugeAlloc → Buffer → ℕ → ℕ → HugeAlloc
add_blocks h b zero i = h
add_blocks h b (suc n) i =
    add_blocks
      (push h (num_classes - 1) (new_buffer (b.buf + i * max_class_size) max_class_size b.lkey)) b n
      (i + 1)

-- `add_raw_buffer`; its second call, for what is left of the region, passes the same buffer and so
-- gives the tail block the address of the first.
pub add_raw_buffer : (ℕ → ℕ) → HugeAlloc → Buffer → ℕ → HugeAlloc
add_raw_buffer bsr h b size =
    if leb max_class_size size
    then (let h' = add_blocks h b (size / max_class_size) 0 in
        if ltb 0 (size % max_class_size) then small h' (size % max_class_size) else h')
    else small h size
  where
    small : HugeAlloc → ℕ → HugeAlloc
    small h size = let c = get_class bsr size in push h c (new_buffer b.buf c b.lkey)

-- `reserve_hugepages`, for what `alloc_raw` gives: the address of the region, or `none`. `alloc_raw`
-- does not set the key of the region.
unfoldable pub reserve_hugepages : Option ℕ → HugeAlloc → ℕ → Option (Bool × HugeAlloc)
reserve_hugepages raw h size =
    if leb max_class_size size
    then elim raw [
      | none ↦ some (false, h)
      | some buf ↦
          let region = new_buffer buf (2 ^ 64 - 1) (2 ^ 32 - 1) in
          some (true, add_blocks h region (size / max_class_size) 0)
    ]
    else none
