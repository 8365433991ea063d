-- ===== src/HugeAlloc/Pop.antt =====
-- The freelists: what `push_back` and `pop_back` keep (src/dispatcher_impl/roce/huge_alloc.h).
use native.Mathlib.Decide.{ℕ_discrete}
use axio_emulator.Prelude.{
  ℕ, ◌+◌, ◌<◌, ◌≡◌, refl, ap, ◌≢◌, List, [], ◌∷◌, some, true, false, ◌==◌, arith,
}
use axio_emulator.HugeAlloc.{
  Buffer, HugeAlloc, update, num_classes, class_max_size, is_empty, pop_class, push,
}
use axio_emulator.HugeAlloc.Sums.{sum_list, sum_to-update, total}

abbrev pub AllSize : ℕ → List Buffer → Type 0
AllSize s [] = Unit {0}
AllSize s (b ∷ bs) = (b.class_size ≡ s) × AllSize s bs

-- Every buffer lies on the freelist of its class.
pub record IsValid (h : HugeAlloc) : Type 0 where
  pub sorted : (i : ℕ) → AllSize (class_max_size i) (h.freelist i)

pub ==_refl : (i : ℕ) → (i == i) ≡ true
==_refl i = ground arith

pub ==_ne : (j i : ℕ) → j ≢ i → (j == i) ≡ false
==_ne j i ne = ground arith

AllSize-update :
    (f : ℕ → List Buffer) (i : ℕ) (bs : List Buffer)
    → ((j : ℕ) → AllSize (class_max_size j) (f j))
    → AllSize (class_max_size i) bs
    → (j : ℕ) → AllSize (class_max_size j) (update f i bs j)
AllSize-update f i bs all here j = elim (ℕ_discrete j i) [
  | yes e ↦ rw (e, ==_refl i) here
  | no ne ↦ rw (==_ne j i ne) (all j)
]

pub push-IsValid :
    (h : HugeAlloc) (i : ℕ) (b : Buffer)
    → IsValid h
    → b.class_size ≡ class_max_size i
    → IsValid (push h i b)
unfolding push
push-IsValid h i b v e = record {
  sorted = AllSize-update h.freelist i (b ∷ h.freelist i) v.sorted (e, v.sorted i);
}

pub push-filled : (h : HugeAlloc) (i : ℕ) (b : Buffer) → is_empty ((push h i b).freelist i) ≡ false
unfolding push
push-filled h i b = rw (==_refl i)

push-other : (h : HugeAlloc) (i j : ℕ) (b : Buffer) → j ≢ i → (push h i b).freelist j ≡ h.freelist j
unfolding push
push-other h i j b ne = rw (==_ne j i ne)

pub total-push :
    (w : Buffer → ℕ) (h : HugeAlloc) (i : ℕ) (b : Buffer)
    → i < num_classes
    → total w (push h i b) ≡ total w h + w b
unfolding total push
total-push w h i b lt =
    omega (arith, sum_to-update w num_classes h.freelist i (b ∷ h.freelist i) lt)

-- Popping a class that is not empty.
pub record Popped (h : HugeAlloc) (i : ℕ) : Type 0 where
  pub buffer : Buffer
  pub after : HugeAlloc
  pub runs : pop_class h i ≡ some (buffer, after)
  pub size : buffer.class_size ≡ class_max_size i
  pub valid : IsValid after
  pub below : (j : ℕ) → j ≢ i → after.freelist j ≡ h.freelist j
  pub taken : (w : Buffer → ℕ) → i < num_classes → total w h ≡ total w after + w buffer
  pub tot : after.user_alloc_tot ≡ h.user_alloc_tot

is_empty-cons :
    (xs : List Buffer) → is_empty xs ≡ false → (b : Buffer) × (bs : List Buffer) × (xs ≡ b ∷ bs)
is_empty-cons [] e = cc
is_empty-cons (b ∷ bs) e = (b, bs, refl)

pub pop_class-Popped :
    (h : HugeAlloc) (i : ℕ) → IsValid h → is_empty (h.freelist i) ≡ false → Popped h i
unfolding pop_class total
pop_class-Popped h i v e =
    let (b, bs, was) = is_empty-cons (h.freelist i) e in
    let here : AllSize (class_max_size i) (b ∷ bs) = rw was at (v.sorted i) in
    record {
      buffer = b;
      after = record h { freelist = update h.freelist i bs };
      runs = rw (was, pop_class) (rw (here.0, ==_refl (class_max_size i)));
      size = here.0;
      valid = record { sorted = AllSize-update h.freelist i bs v.sorted here.1 };
      below = λ j ne. rw (==_ne j i ne);
      taken = λ w lt.
          omega (arith, sum_to-update w num_classes h.freelist i bs lt, ap (sum_list w) was);
      tot = refl;
    }
