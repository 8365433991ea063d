-- ===== src/HugeAlloc/Examples.antt =====
-- An allocator with one block of the largest class.
use axio_emulator.Prelude.{
  ◌*◌, ℕ, ◌+◌, ◌≡◌, refl, List, [], ◌∷◌, Option, none, some, get_elem?, leb, if◌then◌else◌, arith,
}
use axio_emulator.HugeAlloc.{
  add_raw_buffer, Buffer, HugeAlloc, new_buffer, max_class_size, min_class_size, num_classes,
  class_max_size, push, alloc, get_class, get_class_slow,
}
use axio_emulator.HugeAlloc.Bsr.{bsr, bsr-BsrLaw}
use axio_emulator.HugeAlloc.Classes.{IsClass, get_class-eq-slow}
use axio_emulator.HugeAlloc.Sums.{covers, total, sum_to}
use axio_emulator.HugeAlloc.Pop.{IsValid, push-IsValid}
use axio_emulator.HugeAlloc.Alloc.{Allocated, alloc-Allocated}
use axio_emulator.HugeAlloc.Region.{within, add_raw_buffer-within}
use axio_emulator.HugeAlloc.Owners.{run-owners, or_else}
use axio_emulator.HugeAlloc.History.{Op, take, give, State, IsSound, Sized, owners, run}

abbrev nothing_free : HugeAlloc
nothing_free = record { freelist = λ i. []; user_alloc_tot = 0 }

abbrev block : Buffer
block = new_buffer max_class_size max_class_size 5

abbrev one_block : HugeAlloc
one_block = push nothing_free 17 block

one_block-IsValid : IsValid one_block
unfolding class_max_size
one_block-IsValid = push-IsValid nothing_free 17 block (record { sorted = λ i. tt }) refl

abbrev first : State
first = (one_block, [])

first-no_null : owners 0 first ≡ 0
unfolding owners covers total sum_to push
first-no_null = refl

first-IsSound : IsSound first
first-IsSound = record { valid = one_block-IsValid; held = tt; no_null = first-no_null }

get_class_example :
    (get_class bsr 100
      ≡ (if leb 100 min_class_size then bsr 0 else get_class_slow num_classes 100 0 min_class_size))
    × IsClass 100 (get_class_slow num_classes 100 0 min_class_size)
get_class_example = get_class-eq-slow bsr 100 bsr-BsrLaw (omega arith) (omega arith)

alloc_example : Allocated one_block (get_class bsr 100) (alloc bsr one_block 100)
alloc_example =
    alloc-Allocated bsr one_block 100 bsr-BsrLaw one_block-IsValid (omega arith) (omega arith)

abbrev requests : List Op
requests = take 100 ∷ take 3000000 ∷ give 0 ∷ take 100 ∷ []

requests-Sized : Sized requests
requests-Sized =
    (omega arith, omega arith, (omega arith, omega arith, (omega arith, omega arith, tt)))

run-owners_example :
    (t : State) × (run bsr first requests ≡ some t)
    × IsSound t
    × ((a : ℕ) → owners a t ≡ owners a first)
run-owners_example = run-owners bsr requests first bsr-BsrLaw requests-Sized first-IsSound

abbrev or_first : Option State → State
or_first none = first
or_first (some s) = s

abbrev last : State
last = or_first (run bsr first requests)

abbrev held : ℕ → Buffer
held i = or_else block (get_elem? last.1 i)

abbrev address : ℕ
address = 8388700

abbrev region : Buffer
region = new_buffer max_class_size 0 5

add_raw_buffer_example :
    IsValid (add_raw_buffer bsr nothing_free region (4 * max_class_size))
    × ((a : ℕ)
        → total (covers a) (add_raw_buffer bsr nothing_free region (4 * max_class_size))
          ≡ total (covers a) nothing_free + within region.buf (region.buf + 4 * max_class_size) a)
add_raw_buffer_example =
    add_raw_buffer-within bsr nothing_free region 4 (omega arith) (record { sorted = λ i. tt })
