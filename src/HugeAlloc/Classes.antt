-- ===== src/HugeAlloc/Classes.antt =====
-- Size classes: the fast `get_class` against its reference `get_class_slow`.
use native.Mathlib.Nat.{pow-suc, pow-le-pow_right}
use native.Mathlib.Nat.{add-zero}
use native.Mathlib.Decide.{dec_lt}
use axio_emulator.Prelude.{
  ℕ, zero, suc, ◌+◌, ◌-◌, ◌*◌, ◌/◌, ◌%◌, ◌^◌, ◌≤◌, ◌<◌, ◌≡◌, refl, ap, inl, inr, ltb, leb,
  Bool-cases, if◌then◌else◌, arith,
}
use axio_emulator.HugeAlloc.{
  class_max_size, get_class, get_class_slow, min_class_size, max_class_size, num_classes,
}

-- What the processor documents of `bsrl`: the index of the highest set bit of a source that is not
-- zero. (For zero the destination is undefined.)
pub record BsrLaw (bsr : ℕ → ℕ) : Type 0 where
  pub low : (x : ℕ) → 0 < x → x < 2 ^ 32 → 2 ^ bsr x ≤ x
  pub high : (x : ℕ) → 0 < x → x < 2 ^ 32 → x < 2 ^ suc (bsr x)

-- `c` is the smallest class whose buffers hold `size` bytes.
pub record IsClass (size c : ℕ) : Type 0 where
  pub fits : size ≤ class_max_size c
  pub least : (k : ℕ) → k < c → class_max_size k < size

pub IsClass-unique : {size c d : ℕ} → IsClass size c → IsClass size d → c ≡ d
IsClass-unique {size} {c} {d} p q = elim (dec_lt c d) [
  | yes lt ↦ absurd (omega (arith, q.least c lt, p.fits))
  | no ge ↦ elim (dec_lt d c) [
    | yes lt ↦ absurd (omega (arith, p.least d lt, q.fits))
    | no le ↦ omega arith
  ]
]

smallest : min_class_size ≡ class_max_size 0
unfolding class_max_size
smallest = refl

top : max_class_size ≤ class_max_size 18
unfolding class_max_size
top = omega arith

pub class_max_size-suc : (c : ℕ) → class_max_size (suc c) ≡ class_max_size c * 2
unfolding class_max_size
class_max_size-suc c = omega (arith, pow-suc 2 c)

pub class_max_size_mono : (c d : ℕ) → c ≤ d → class_max_size c ≤ class_max_size d
unfolding class_max_size
class_max_size_mono c d h = omega (arith, pow-le-pow_right {n = 2} (omega arith) h)

least_next :
    (size c : ℕ)
    → ((k : ℕ) → k < c → class_max_size k < size)
    → class_max_size c < size
    → (k : ℕ) → k < c + 1
    → class_max_size k < size
least_next size c below here k lt = elim (dec_lt k c) [
  | yes before ↦ below k before
  | no last ↦ omega (arith, ap class_max_size (same last))
]
  where
    same : ¬ (k < c) → k ≡ c
    same last = omega arith

-- The loop ends at the class, given fuel for the classes that are left.
slow-IsClass :
    (fuel size c lim : ℕ)
    → lim ≡ class_max_size c
    → ((k : ℕ) → k < c → class_max_size k < size)
    → size ≤ class_max_size (c + fuel)
    → IsClass size (get_class_slow fuel size c lim)
unfolding get_class_slow
slow-IsClass zero size c lim e below fits = record {
  fits = omega (arith, ap class_max_size (add-zero c));
  least = below;
}
slow-IsClass (suc fuel) size c lim e below fits = elim (Bool-cases (ltb lim size)) [
  | inl more ↦
      let next : c + 1 ≡ suc c = omega arith in
      let over : c + suc fuel ≡ c + 1 + fuel = omega arith in
      rw more (
        slow-IsClass fuel size (c + 1) (lim * 2)
          (omega (arith, class_max_size-suc c, ap class_max_size next))
          (least_next size c below (ground arith)) (omega (arith, ap class_max_size over)))
  | inr done ↦ rw done (record { fits = ground arith; least = below })
]

bounds-IsClass :
    (size m : ℕ)
    → min_class_size < size
    → 2 ^ m ≤ (size - 1) / 2 ^ 6 * 2
    → (size - 1) / 2 ^ 6 * 2 < 2 ^ suc m
    → IsClass size m
unfolding class_max_size
bounds-IsClass size m lo low high = record {
  fits = omega (arith, pow-suc 2 m);
  least = λ k lt.
      omega (arith, pow-suc 2 k, pow-le-pow_right {n = 2} (omega arith) {i = suc k} {j = m} lt);
}

pub fast-IsClass :
    (bsr : ℕ → ℕ) (size : ℕ)
    → BsrLaw bsr
    → min_class_size < size
    → size ≤ max_class_size
    → IsClass size (get_class bsr size)
unfolding get_class
fast-IsClass bsr size law lo hi =
    let x : ℕ = (size - 1) / 2 ^ 6 * 2 in
    let small : x % 2 ^ 32 ≡ x = omega arith in
    rw small (
      bounds-IsClass size (bsr x) lo (law.low x (omega arith) (omega arith))
        (law.high x (omega arith) (omega arith)))

-- For every size from 1 to that of the largest class, the reference loop `get_class_slow` ends at the
-- smallest class that holds the size. The fast `get_class` gives the same above the smallest class (64
-- bytes); up to there it gives what `bsrl` leaves for a source of zero.
pub get_class-eq-slow :
    (bsr : ℕ → ℕ) (size : ℕ)
    → BsrLaw bsr
    → 1 ≤ size
    → size ≤ max_class_size
    → (get_class bsr size ≡ (
        if leb size min_class_size
        then bsr 0
        else get_class_slow num_classes size 0 min_class_size))
      × IsClass size (get_class_slow num_classes size 0 min_class_size)
unfolding get_class
get_class-eq-slow bsr size law lo hi =
    let slow =
      slow-IsClass num_classes size 0 min_class_size smallest (λ k lt. elim lt [ ])
        (omega (arith, top)) in
    elim (Bool-cases (leb size min_class_size)) [
      | inl small ↦
          let none_left : (size - 1) / 2 ^ 6 * 2 % 2 ^ 32 ≡ 0 = ground (arith, small) in
          rw (small, none_left) (refl, slow)
      | inr large ↦
          let fast = fast-IsClass bsr size law (ground (arith, large)) hi in
          rw large (IsClass-unique fast slow, slow)
    ]

-- A buffer of a class above the smallest goes back to its own class.
pub get_class-class_max_size :
    (bsr : ℕ → ℕ) (c : ℕ)
    → BsrLaw bsr
    → 0 < c
    → c < num_classes
    → get_class bsr (class_max_size c) ≡ c
unfolding class_max_size
get_class-class_max_size bsr c law pos lt =
    IsClass-unique
      (fast-IsClass bsr (class_max_size c) law (omega (arith, class_max_size_mono 1 c pos, one))
        (omega (arith, class_max_size_mono c 17 (omega arith), seventeen)))
      (record {
        fits = omega arith;
        least = λ k below. omega (
          arith,
          class_max_size_mono (suc k) c below,
          class_max_size-suc k,
          class_max_size_mono 0 k (omega arith),
          smallest,
        );
      })
  where
    one : class_max_size 1 ≡ 128
    one = refl

    seventeen : class_max_size 17 ≡ max_class_size
    seventeen = refl
