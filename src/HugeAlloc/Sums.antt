-- ===== src/HugeAlloc/Sums.antt =====
-- Sums over the freelists of a weight of buffers: the bytes they have, or whether they cover an
-- address.
use native.Mathlib.Decide.{dec_lt}
use axio_emulator.Prelude.{
  ℕ, zero, suc, ◌+◌, ◌/◌, ◌≤◌, ◌<◌, ◌≡◌, refl, List, [], ◌∷◌, ltb, leb, if◌then◌else◌, ◌&&◌, arith,
}
use axio_emulator.HugeAlloc.{Buffer, HugeAlloc, update, num_classes, class_max_size, new_buffer}
use axio_emulator.HugeAlloc.Classes.{class_max_size-suc}

module _ (w : Buffer → ℕ) where
  abbrev pub sum_list : List Buffer → ℕ
  sum_list [] = 0
  sum_list (b ∷ bs) = w b + sum_list bs

  unfoldable pub sum_to : ℕ → (ℕ → List Buffer) → ℕ
  sum_to zero f = 0
  sum_to (suc n) f = sum_to n f + sum_list (f n)

  -- Over all free buffers.
  unfoldable pub total : HugeAlloc → ℕ
  total h = sum_to num_classes h.freelist

  sum_to-update_ge :
      (n : ℕ) (f : ℕ → List Buffer) (i : ℕ) (bs : List Buffer)
      → n ≤ i
      → sum_to n (update f i bs) ≡ sum_to n f
  unfolding sum_to
  sum_to-update_ge zero f i bs h = refl
  sum_to-update_ge (suc n) f i bs h = ground (arith, sum_to-update_ge n f i bs)

  pub sum_to-update :
      (n : ℕ) (f : ℕ → List Buffer) (i : ℕ) (bs : List Buffer)
      → i < n
      → sum_to n (update f i bs) + sum_list (f i) ≡ sum_to n f + sum_list bs
  unfolding sum_to
  sum_to-update zero f i bs h = absurd (omega arith)
  sum_to-update (suc n) f i bs h = elim (dec_lt i n) [
    | yes below ↦ ground (arith, sum_to-update n f i bs below)
    | no last ↦ ground (arith, sum_to-update_ge n f i bs)
  ]

-- A weight that a buffer's halves share out.
pub record Additive (w : Buffer → ℕ) : Type 0 where
  pub halves :
      (b : Buffer) (i : ℕ)
      → b.class_size ≡ class_max_size (suc i)
      → w b
        ≡ w (new_buffer b.buf (b.class_size / 2) b.lkey)
          + w (new_buffer (b.buf + b.class_size / 2) (b.class_size / 2) b.lkey)
  pub reset : (b : Buffer) → w (new_buffer b.buf b.class_size b.lkey) ≡ w b

-- Whether an address lies in the buffer, as a number.
unfoldable pub covers : ℕ → Buffer → ℕ
covers a b = if leb b.buf a && ltb a (b.buf + b.class_size) then 1 else 0

pub bytes : Buffer → ℕ
bytes b = b.class_size

pub covers-Additive : (a : ℕ) → Additive (covers a)
unfolding covers
covers-Additive a = record {
  halves = λ b i e. ground (arith, class_max_size-suc i);
  reset = λ b. refl;
}

pub bytes-Additive : Additive bytes
unfolding bytes
bytes-Additive = record { halves = λ b i e. omega (arith, class_max_size-suc i); reset = λ b. refl }
