-- ===== src/HugeAlloc/History.antt =====
-- Histories of `alloc` and `free_buf` (src/dispatcher_impl/roce/huge_alloc.h): a caller that frees
-- only what it holds.
use mathlib.Core.Path.{subst}
use axio_emulator.Prelude.{
  ℕ, zero, suc, ◌+◌, ◌-◌, ◌%◌, ◌^◌, ◌≤◌, ◌<◌, ◌≡◌, refl, sym, ap, ◌∙◌, ◌≢◌, List, [], ◌∷◌, Option,
  none, some, true, leb, get_elem?, arith,
}
use axio_emulator.HugeAlloc.{
  Buffer, HugeAlloc, num_classes, min_class_size, max_class_size, class_max_size, push, get_class,
  alloc, free_buf, ◌>>=◌, free,
}
use axio_emulator.HugeAlloc.Classes.{BsrLaw, get_class-class_max_size, class_max_size_mono}
use axio_emulator.HugeAlloc.Sums.{sum_list, total, Additive, covers}
use axio_emulator.HugeAlloc.Pop.{IsValid, push-IsValid, total-push, ==_refl, ==_ne}

pub data Op : Type 0 where
  take : ℕ → Op
  give : ℕ → Op

-- The allocator, and the buffers that the caller holds.
abbrev pub State : Type 0
State = HugeAlloc × List Buffer

abbrev pub hold : Option Buffer → List Buffer → List Buffer
hold none live = live
hold (some b) live = b ∷ live

unfoldable pub remove_at : ℕ → List Buffer → List Buffer
remove_at i [] = []
remove_at zero (b ∷ bs) = bs
remove_at (suc i) (b ∷ bs) = b ∷ remove_at i bs

module _ (bsr : ℕ → ℕ) where
  unfoldable pub step : State → Op → Option State
  step (h, live) (take size) = do (r, h') ← alloc bsr h size; some (h', hold r live)
  step (h, live) (give i) = elim (get_elem? live i) [
    | none ↦ some (h, live)
    | some b ↦ (do h' ← free_buf bsr h b; some (h', remove_at i live))
  ]

  unfoldable pub run : State → List Op → Option State
  run s [] = some s
  run s (o ∷ os) = do s' ← step s o; run s' os

-- A caller asks for sizes above the smallest class and up to the largest.
abbrev pub Sized : List Op → Type 0
Sized [] = Unit {0}
Sized (take size ∷ os) = (min_class_size < size) × (size ≤ max_class_size) × Sized os
Sized (give i ∷ os) = Sized os

pub record HasClass (b : Buffer) : Type 0 where
  pub class_i : ℕ
  pub positive : 0 < class_i
  pub small : class_i < num_classes
  pub size : b.class_size ≡ class_max_size class_i

abbrev pub AllHaveClass : List Buffer → Type 0
AllHaveClass [] = Unit {0}
AllHaveClass (b ∷ bs) = HasClass b × AllHaveClass bs

-- How many buffers, free or held, cover an address.
unfoldable pub owners : ℕ → State → ℕ
owners a (h, live) = total (covers a) h + sum_list (covers a) live

pub record IsSound (s : State) : Type 0 where
  pub valid : IsValid s.0
  pub held : AllHaveClass s.1
  pub no_null : owners 0 s ≡ 0

pub sum-remove_at :
    (w : Buffer → ℕ) (live : List Buffer) (i : ℕ) (b : Buffer)
    → get_elem? live i ≡ some b
    → sum_list w live ≡ w b + sum_list w (remove_at i live)
unfolding remove_at
sum-remove_at w [] i b e = cc
sum-remove_at w (x ∷ xs) zero b e = ground arith
sum-remove_at w (x ∷ xs) (suc i) b e = omega (arith, sum-remove_at w xs i b e)

pub held-remove_at :
    (live : List Buffer) (i : ℕ) → AllHaveClass live → AllHaveClass (remove_at i live)
unfolding remove_at
held-remove_at [] i h = tt
held-remove_at (x ∷ xs) zero h = h.1
held-remove_at (x ∷ xs) (suc i) h = (h.0, held-remove_at xs i h.1)

pub held-get :
    (live : List Buffer) (i : ℕ) (b : Buffer)
    → AllHaveClass live
    → get_elem? live i ≡ some b
    → HasClass b
held-get [] i b h e = cc
held-get (x ∷ xs) zero b h e = subst HasClass (same e) h.0
  where
    same : some x ≡ some b → x ≡ b
    same e = cc
held-get (x ∷ xs) (suc i) b h e = held-get xs i b h.1 e

class_positive : (c : ℕ) → 0 < class_max_size c
unfolding class_max_size
class_positive c = omega (arith, class_max_size_mono 0 c (omega arith), smallest)
  where
    smallest : class_max_size 0 ≡ 64
    smallest = refl

largest : class_max_size 17 ≡ max_class_size
unfolding class_max_size
largest = refl

pub not_null : (b : Buffer) (c : ℕ) → b.class_size ≡ class_max_size c → covers 0 b ≡ 0 → b.buf ≢ 0
unfolding covers
not_null b c e z at = ground (arith, class_positive c)

-- Freeing a buffer that `alloc` gave puts it back: no `assert` fails.
pub record Freed (bsr : ℕ → ℕ) (h : HugeAlloc) (b : Buffer) : Type 0 where
  pub after : HugeAlloc
  pub runs : free_buf bsr h b ≡ some after
  pub valid : IsValid after
  pub back : (w : Buffer → ℕ) → Additive w → total w after ≡ total w h + w b

pub free_buf-Freed :
    (bsr : ℕ → ℕ) (h : HugeAlloc) (b : Buffer)
    → BsrLaw bsr
    → IsValid h
    → HasClass b
    → b.buf ≢ 0
    → Freed bsr h b
unfolding free_buf total
free_buf-Freed bsr h b law v k nn =
    let reset : Buffer = record b { length = 0; state = free } in
    let same : get_class bsr b.class_size ≡ k.class_i =
      ap (get_class bsr) k.size ∙ get_class-class_max_size bsr k.class_i law k.positive k.small in
    let some_bytes : leb 1 b.class_size ≡ true = ground (arith, k.size, class_positive k.class_i) in
    let fits : leb b.class_size max_class_size ≡ true =
      ground (arith, k.size, class_max_size_mono k.class_i 17 (omega (arith, k.small)), largest) in
    record {
      after = record (push h k.class_i reset) {
        user_alloc_tot = (h.user_alloc_tot + 2 ^ 64 - b.class_size) % 2 ^ 64;
      };
      runs = rw (==_ne b.buf 0 nn, same, some_bytes, fits, sym k.size, ==_refl b.class_size) refl;
      valid = record { sorted = (push-IsValid h k.class_i reset v k.size).sorted };
      back = λ w add. total-push w h k.class_i reset k.small ∙ ap (◌+◌ (total w h)) (add.reset b);
    }
