-- ===== src/HugeAlloc/Region.antt =====
-- `add_raw_buffer` for a region of whole blocks (src/dispatcher_impl/roce/huge_alloc.cc).
use native.Mathlib.Nat.{mul-div_cancel, add-zero}
use axio_emulator.Prelude.{
  ℕ, zero, suc, ◌+◌, ◌-◌, ◌*◌, ◌/◌, ◌%◌, ◌^◌, ◌≤◌, ◌<◌, ◌≡◌, refl, ap, ap₂, ◌∙◌, none, some, true,
  false, leb, ltb, ◌&&◌, if◌then◌else◌, arith,
}
use axio_emulator.HugeAlloc.{
  Buffer, HugeAlloc, new_buffer, num_classes, max_class_size, class_max_size, is_empty, push,
  add_blocks, reserve_hugepages, add_raw_buffer,
}
use axio_emulator.HugeAlloc.Sums.{covers, total}
use axio_emulator.HugeAlloc.Pop.{IsValid, push-IsValid, push-filled, total-push}

-- Whether an address lies in the bytes from `lo` up to `hi`, as a number.
unfoldable pub within : ℕ → ℕ → ℕ → ℕ
within lo hi a = if leb lo a && ltb a hi then 1 else 0

within-join :
    (lo mid hi a : ℕ) → lo ≤ mid → mid ≤ hi → within lo mid a + within mid hi a ≡ within lo hi a
unfolding within
within-join lo mid hi a p q = ground arith

within-empty : (lo a : ℕ) → within lo lo a ≡ 0
unfolding within
within-empty lo a = ground arith

covers-block :
    (b : Buffer) (start a : ℕ)
    → covers a (new_buffer start max_class_size b.lkey) ≡ within start (start + max_class_size) a
unfolding covers within
covers-block b start a = refl

largest : max_class_size ≡ class_max_size (num_classes - 1)
unfolding class_max_size
largest = refl

add_blocks-IsValid :
    (n i : ℕ) (h : HugeAlloc) (b : Buffer) → IsValid h → IsValid (add_blocks h b n i)
unfolding add_blocks
add_blocks-IsValid zero i h b v = v
add_blocks-IsValid (suc n) i h b v =
    add_blocks-IsValid n (i + 1) _ b (push-IsValid h (num_classes - 1) _ v largest)

add_blocks-within :
    (n i : ℕ) (h : HugeAlloc) (b : Buffer) (a : ℕ)
    → total (covers a) (add_blocks h b n i)
      ≡ total (covers a) h
        + within (b.buf + i * max_class_size) (b.buf + (i + n) * max_class_size) a
unfolding add_blocks
add_blocks-within zero i h b a = omega (
  arith,
  within-empty (b.buf + i * max_class_size) a,
  ap (λ j. within (b.buf + i * max_class_size) (b.buf + j * max_class_size) a) (add-zero i),
)
add_blocks-within (suc n) i h b a =
    let block = new_buffer (b.buf + i * max_class_size) max_class_size b.lkey in
    let rest = add_blocks-within n (i + 1) (push h (num_classes - 1) block) b a in
    let first = total-push (covers a) h (num_classes - 1) block (omega arith) in
    let lo = b.buf + i * max_class_size in
    let mid = b.buf + (i + 1) * max_class_size in
    let hi = b.buf + (i + suc n) * max_class_size in
    let next : lo + max_class_size ≡ mid = omega arith in
    let end : b.buf + (i + 1 + n) * max_class_size ≡ hi = omega arith in
    omega (
      arith,
      rest,
      first,
      covers-block b lo a,
      ap (λ e. within lo e a) next,
      ap (λ e. within mid e a) end,
      within-join lo mid hi a (omega arith) (omega arith),
    )

-- A region of n > 0 whole blocks, added to an allocator with sorted freelists: the freelists stay
-- sorted, and each address of the region has one owner more, the others as many as before.
pub add_raw_buffer-within :
    (bsr : ℕ → ℕ) (h : HugeAlloc) (b : Buffer) (n : ℕ)
    → 0 < n
    → IsValid h
    → IsValid (add_raw_buffer bsr h b (n * max_class_size))
      × ((a : ℕ)
          → total (covers a) (add_raw_buffer bsr h b (n * max_class_size))
            ≡ total (covers a) h + within b.buf (b.buf + n * max_class_size) a)
unfolding add_raw_buffer
add_raw_buffer-within bsr h b n pos v =
    let big : leb max_class_size (n * max_class_size) ≡ true = ground arith in
    let blocks : n * max_class_size / max_class_size ≡ n = mul-div_cancel n (omega arith) in
    let no_rest : ltb 0 (n * max_class_size % max_class_size) ≡ false = ground arith in
    let start : b.buf + 0 * max_class_size ≡ b.buf = omega arith in
    let stop : b.buf + (0 + n) * max_class_size ≡ b.buf + n * max_class_size = omega arith in
    (
      rw (big, no_rest, blocks) (add_blocks-IsValid n 0 h b v),
      λ a.
          rw (big, no_rest, blocks)
            (add_blocks-within n 0 h b a
              ∙ ap₂ (λ lo hi. total (covers a) h + within lo hi a) start stop),
    )

add_blocks-filled :
    (n i : ℕ) (h : HugeAlloc) (b : Buffer)
    → is_empty (h.freelist (num_classes - 1)) ≡ false
    → is_empty ((add_blocks h b n i).freelist (num_classes - 1)) ≡ false
unfolding add_blocks
add_blocks-filled zero i h b f = f
add_blocks-filled (suc n) i h b f =
    add_blocks-filled n (i + 1) _ b (push-filled h (num_classes - 1) _)

-- A region of whole blocks leaves buffers of the largest class.
pub add_raw_buffer-filled :
    (bsr : ℕ → ℕ) (h : HugeAlloc) (b : Buffer) (n : ℕ)
    → is_empty ((add_raw_buffer bsr h b (suc n * max_class_size)).freelist (num_classes - 1))
      ≡ false
unfolding add_raw_buffer add_blocks
add_raw_buffer-filled bsr h b n =
    let big : leb max_class_size (suc n * max_class_size) ≡ true = ground arith in
    let blocks : suc n * max_class_size / max_class_size ≡ suc n =
      mul-div_cancel (suc n) (omega arith) in
    let no_rest : ltb 0 (suc n * max_class_size % max_class_size) ≡ false = ground arith in
    rw (big, no_rest, blocks) (add_blocks-filled n 1 _ b (push-filled h (num_classes - 1) _))

-- What `reserve_hugepages` leaves: the freelists sorted, each address of the whole blocks of the new
-- region with one owner more, and the others as they were; without memory, nothing is changed. It
-- asks for at least one block.
pub reserve_hugepages-within :
    (h : HugeAlloc) (buf size : ℕ)
    → IsValid h
    → max_class_size ≤ size
    → (reserve_hugepages none h size ≡ some (false, h))
      × ((after : HugeAlloc) × (reserve_hugepages (some buf) h size ≡ some (true, after))
          × IsValid after
          × ((a : ℕ)
              → total (covers a) after
                ≡ total (covers a) h + within buf (buf + size / max_class_size * max_class_size) a))
unfolding reserve_hugepages
reserve_hugepages-within h buf size v big =
    let enough : leb max_class_size size ≡ true = ground arith in
    let region = new_buffer buf (2 ^ 64 - 1) (2 ^ 32 - 1) in
    let n = size / max_class_size in
    let start : buf + 0 * max_class_size ≡ buf = omega arith in
    (
      rw enough refl,
      (
        add_blocks h region n 0,
        rw enough refl,
        add_blocks-IsValid n 0 h region v,
        λ a.
            add_blocks-within n 0 h region a
            ∙ ap₂ (λ lo hi. total (covers a) h + within lo hi a) start (omega arith),
      ),
    )
