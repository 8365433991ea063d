-- ===== src/Roce/Setup/Registered.antt =====
-- `init_mem_reg_funcs`: the region is registered and split, and the ring lies in it.
use axio_emulator.Prelude.{ℕ, ◌+◌, ◌<◌, ◌≡◌, refl, ◌∙◌, ◌≢◌, List, [], ◌∷◌, some, arith}
use axio_emulator.HugeAlloc.{Buffer, HugeAlloc, new_buffer, alloc, add_raw_buffer}
use axio_emulator.HugeAlloc.Sums.{total, sum_to, covers}
use axio_emulator.HugeAlloc.History.{owners, IsSound}
use axio_emulator.HugeAlloc.Kept.{Grown}
use axio_emulator.HugeAlloc.Region.{within, add_raw_buffer-within}
use axio_emulator.Roce.Connect.{RoceType}
use axio_emulator.Roce.Setup.{Answers, RecvRing, mem_region_size, ring_extent_size, nothing_free}
use axio_emulator.Roce.Setup.Ready.{IsReady}

-- A buffer of the largest class that `alloc` gives.
record Largest (bsr : ℕ → ℕ) (h : HugeAlloc) (live : List Buffer) : Type 0 where
  extent : Buffer
  after : HugeAlloc
  runs : alloc bsr h ring_extent_size ≡ some (some extent, after)
  size : extent.class_size ≡ ring_extent_size
  not_null_at : extent.buf ≢ 0
  grown : Grown h live extent after

-- The allocator when the region was added to it.
abbrev pub region_alloc : (ℕ → ℕ) → ℕ → ℕ → HugeAlloc
region_alloc bsr raw lkey =
    add_raw_buffer bsr nothing_free (new_buffer raw mem_region_size lkey) mem_region_size

nothing_free-total : (a : ℕ) → total (covers a) nothing_free ≡ 0
unfolding total sum_to
nothing_free-total a = refl

outside : (raw : ℕ) → 0 < raw → within raw (raw + mem_region_size) 0 ≡ 0
unfolding within
outside raw pos = ground arith

-- It is sound, and owns the region and nothing else.
pub region-IsSound :
    (bsr : ℕ → ℕ) (raw lkey : ℕ)
    → 0 < raw
    → IsSound (region_alloc bsr raw lkey, [])
      × ((a : ℕ) → owners a (region_alloc bsr raw lkey, []) ≡ within raw (raw + mem_region_size) a)
unfolding owners
region-IsSound bsr raw lkey pos =
    let (valid, whole) =
      add_raw_buffer-within bsr nothing_free (new_buffer raw mem_region_size lkey) 4 (omega arith)
        (record { sorted = λ i. tt }) in
    let owned : (a : ℕ)
        → owners a (region_alloc bsr raw lkey, []) ≡ within raw (raw + mem_region_size) a =
      λ a. omega (arith, whole a, nothing_free-total a) in
    (record { valid = valid; held = tt; no_null = owned 0 ∙ outside raw pos }, owned)

-- The receive ring, its extent and the allocator after it, for a region at `raw`.
pub record IsRegistered (type : RoceType) (answers : Answers) (raw : ℕ)
    (out : Buffer × HugeAlloc × RecvRing) : Type 0 where
  pub ready : IsReady type answers.fresh out.0 out.2
  pub size : out.0.class_size ≡ ring_extent_size
  pub sound : IsSound (out.1, out.0 ∷ [])
  pub region : (a : ℕ) → owners a (out.1, out.0 ∷ []) ≡ within raw (raw + mem_region_size) a
