-- ===== src/HugeAlloc/Alloc.antt =====
-- `alloc` and `free_buf`: no `assert` fails, the size is met, and free memory is accounted for.
use native.Mathlib.Decide.{dec_lt, ℕ_discrete}
use axio_emulator.Prelude.{
  ℕ, ◌+◌, ◌-◌, ◌%◌, ◌^◌, ◌≤◌, ◌<◌, ◌≡◌, refl, sym, ap, ◌∙◌, ◌≢◌, inl, inr, Option, none, some, true,
  false, ltb, leb, Bool-cases, arith,
}
use axio_emulator.HugeAlloc.{
  Buffer, HugeAlloc, num_classes, min_class_size, max_class_size, class_max_size, is_empty,
  alloc_from_class, find_class, split_down, get_class, alloc,
}
use axio_emulator.HugeAlloc.Classes.{BsrLaw, IsClass, fast-IsClass}
use axio_emulator.HugeAlloc.Sums.{total, Additive}
use axio_emulator.HugeAlloc.Pop.{IsValid, pop_class-Popped, ==_ne}
use axio_emulator.HugeAlloc.Split.{split_down-IsRefill, Found, find_class-Found}

-- What `alloc` does for a size of class `c`.
pub data Allocated (h : HugeAlloc) (c : ℕ) : Option (Option Buffer × HugeAlloc) → Type 0 where
  -- `nullptr`, and nothing changed: no class from `c` on has a buffer.
  exhausted :
      ((k : ℕ) → c ≤ k → k < num_classes → is_empty (h.freelist k) ≡ true)
      → Allocated h c (some (none, h))
  -- A buffer of class `c`, taken out of what was free.
  given :
      (b : Buffer) (after : HugeAlloc)
      → b.class_size ≡ class_max_size c
      → IsValid after
      → ((w : Buffer → ℕ) → Additive w → total w h ≡ total w after + w b)
      → after.user_alloc_tot ≡ (h.user_alloc_tot + b.class_size) % 2 ^ 64
      → Allocated h c (some (some b, after))

-- From a class that is not empty.
record Given (h : HugeAlloc) (c : ℕ) : Type 0 where
  buffer : Buffer
  after : HugeAlloc
  runs : alloc_from_class c h ≡ some (buffer, after)
  size : buffer.class_size ≡ class_max_size c
  valid : IsValid after
  taken : (w : Buffer → ℕ) → total w h ≡ total w after + w buffer
  tot : after.user_alloc_tot ≡ (h.user_alloc_tot + buffer.class_size) % 2 ^ 64

alloc_from_class-Given :
    (h : HugeAlloc) (c : ℕ)
    → IsValid h
    → c < num_classes
    → is_empty (h.freelist c) ≡ false
    → Given h c
unfolding alloc_from_class total
alloc_from_class-Given h c v lt filled =
    let p = pop_class-Popped h c v filled in
    let small : ltb c num_classes ≡ true = ground arith in
    record {
      buffer = p.buffer;
      after = record p.after {
        user_alloc_tot = (p.after.user_alloc_tot + p.buffer.class_size) % 2 ^ 64;
      };
      runs = rw (small, p.runs);
      size = p.size;
      valid = record { sorted = p.valid.sorted };
      taken = λ w. p.taken w lt;
      tot = ap (λ t. (t + p.buffer.class_size) % 2 ^ 64) p.tot;
    }

largest : class_max_size 17 ≡ max_class_size
unfolding class_max_size
largest = refl

pub class_lt : {size c : ℕ} → IsClass size c → size ≤ max_class_size → c < num_classes
class_lt {size} {c} k hi = elim (dec_lt c num_classes) [
  | yes lt ↦ lt
  | no ge ↦ absurd (omega (arith, k.least 17 (omega arith), largest))
]

-- The class is empty and a larger one has buffers.
record Refilled (h : HugeAlloc) (c next : ℕ) : Type 0 where
  middle : HugeAlloc
  given_by : Given middle c
  runs : split_down (next - c) c h ≡ some middle
  kept : (w : Buffer → ℕ) → Additive w → total w middle ≡ total w h
  tot : middle.user_alloc_tot ≡ h.user_alloc_tot

refill :
    (h : HugeAlloc) (c next : ℕ)
    → IsValid h
    → c < next
    → next < num_classes
    → ((k : ℕ) → c ≤ k → k < next → is_empty (h.freelist k) ≡ true)
    → is_empty (h.freelist next) ≡ false
    → Refilled h c next
refill h c next v up lt passed filled =
    let e : next - c + c ≡ next = omega arith in
    let r =
      split_down-IsRefill (next - c) c h v (omega arith) (λ k lo hi. passed k lo (omega arith))
        (ap (λ k. is_empty (h.freelist k)) e ∙ filled) in
    record {
      middle = r.after;
      given_by = alloc_from_class-Given r.after c r.valid (omega arith) r.filled;
      runs = r.runs;
      kept = r.kept;
      tot = r.tot;
    }

empty_from :
    (h : HugeAlloc) (c next : ℕ)
    → is_empty (h.freelist c) ≡ true
    → ((k : ℕ) → c + 1 ≤ k → k < next → is_empty (h.freelist k) ≡ true)
    → (k : ℕ) → c ≤ k
    → k < next
    → is_empty (h.freelist k) ≡ true
empty_from h c next here above k lo hi = elim (ℕ_discrete k c) [
  | yes at ↦ ap (λ j. is_empty (h.freelist j)) at ∙ here
  | no later ↦ above k (omega arith) hi
]

not_last :
    {h : HugeAlloc} {next left r : ℕ}
    → Found h left next r
    → r ≢ next + left
    → is_empty (h.freelist r) ≡ false
not_last f ne = elim f.stop [ inl e ↦ absurd (ne e) | inr filled ↦ filled ]

-- For a size above the smallest class (64 bytes) and up to the largest (8 MB), on an allocator whose
-- freelists are sorted by class and with a `bsrl` that does what is documented for it: no `assert` of
-- `alloc`, `split` or `alloc_from_class` fails; either the pointer is null, with nothing changed and
-- no buffer free from the class of the size on, or a buffer of that class is given and taken out of
-- what was free, the freelists stay sorted, and the count of allocated bytes grows by its size modulo
-- 2^64.
pub alloc-Allocated :
    (bsr : ℕ → ℕ) (h : HugeAlloc) (size : ℕ)
    → BsrLaw bsr
    → IsValid h
    → min_class_size < size
    → size ≤ max_class_size
    → Allocated h (get_class bsr size) (alloc bsr h size)
unfolding alloc
alloc-Allocated bsr h size law v lo hi =
    let c = get_class bsr size in
    let lt = class_lt (fast-IsClass bsr size law lo hi) hi in
    let some_bytes : leb 1 size ≡ true = ground arith in
    let fits : leb size max_class_size ≡ true = ground arith in
    let in_range : ltb c num_classes ≡ true = ground arith in
    elim (Bool-cases (is_empty (h.freelist c))) [
      | inl nothing ↦
          let next = find_class h (num_classes - (c + 1)) (c + 1) in
          let f = find_class-Found h (num_classes - (c + 1)) (c + 1) in
          let all = empty_from h c next nothing f.passed in
          elim (ℕ_discrete next num_classes) [
            | yes past ↦
                rw (some_bytes, fits, in_range, nothing, past)
                  (exhausted (λ k lo hi. all k lo (omega arith)))
            | no before ↦
                let r =
                  refill h c next v (omega (arith, f.from)) (omega (arith, f.upto)) all
                    (not_last f (omega arith)) in
                let g = r.given_by in
                rw
                  (
                    some_bytes,
                    fits,
                    in_range,
                    nothing,
                    ==_ne next num_classes before,
                    r.runs,
                    g.runs,
                  )
                  (given g.buffer g.after g.size g.valid (λ w add. sym (r.kept w add) ∙ g.taken w)
                    (g.tot ∙ ap (λ t. (t + g.buffer.class_size) % 2 ^ 64) r.tot))
          ]
      | inr filled ↦
          let g = alloc_from_class-Given h c v lt filled in
          rw (some_bytes, fits, in_range, filled, g.runs)
            (given g.buffer g.after g.size g.valid (λ w _. g.taken w) g.tot)
    ]
