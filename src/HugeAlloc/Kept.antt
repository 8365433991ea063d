-- ===== src/HugeAlloc/Kept.antt =====
-- What one step of a history keeps.
use axio_emulator.Prelude.{
  ℕ, zero, suc, ◌+◌, ◌≤◌, ◌<◌, ◌≡◌, refl, List, [], ◌∷◌, Option, some, get_elem?, Option-cases, inl,
  inr, arith,
}
use axio_emulator.HugeAlloc.{
  Buffer, HugeAlloc, min_class_size, max_class_size, class_max_size, get_class, alloc, free_buf,
  ◌>>=◌,
}
use axio_emulator.HugeAlloc.Classes.{BsrLaw, IsClass, fast-IsClass}
use axio_emulator.HugeAlloc.Sums.{total, Additive, covers, covers-Additive}
use axio_emulator.HugeAlloc.Pop.{IsValid}
use axio_emulator.HugeAlloc.Alloc.{Allocated, exhausted, given, alloc-Allocated, class_lt}
use axio_emulator.HugeAlloc.History.{
  Op, State, hold, remove_at, step, Sized, owners, IsSound, sum-remove_at, held-remove_at, held-get,
  not_null, free_buf-Freed, take, give,
}

-- One step of a sound state succeeds, stays sound, and leaves the owners of each address as they
-- were.
pub record Kept (s : State) (out : Option State) : Type 0 where
  pub after : State
  pub runs : out ≡ some after
  pub sound : IsSound after
  pub same : (a : ℕ) → owners a after ≡ owners a s

class_of_large : {size : ℕ} (c : ℕ) → IsClass size c → min_class_size < size → 0 < c
unfolding class_max_size
class_of_large zero k lo = absurd (omega (arith, k.fits))
class_of_large (suc c) k lo = omega arith

-- A buffer that `alloc` gave is held.
pub record Grown (h : HugeAlloc) (live : List Buffer) (b : Buffer) (after : HugeAlloc)
    : Type 0 where
  pub sound : IsSound (after, b ∷ live)
  pub same : (a : ℕ) → owners a (after, b ∷ live) ≡ owners a (h, live)

pub taken-Grown :
    (bsr : ℕ → ℕ) (h : HugeAlloc) (live : List Buffer) (size : ℕ) (b : Buffer) (after : HugeAlloc)
    → BsrLaw bsr
    → min_class_size < size
    → size ≤ max_class_size
    → IsSound (h, live)
    → b.class_size ≡ class_max_size (get_class bsr size)
    → IsValid after
    → ((w : Buffer → ℕ) → Additive w → total w h ≡ total w after + w b)
    → Grown h live b after
unfolding owners
taken-Grown bsr h live size b after law lo hi s size_b valid taken =
    let class = fast-IsClass bsr size law lo hi in
    record {
      sound = record {
        valid = valid;
        held = (
          record {
            class_i = get_class bsr size;
            positive = class_of_large (get_class bsr size) class lo;
            small = class_lt class hi;
            size = size_b;
          },
          s.held,
        );
        no_null = omega (arith, taken (covers 0) (covers-Additive 0), s.no_null);
      };
      same = λ a. omega (arith, taken (covers a) (covers-Additive a));
    }

take-Kept :
    (bsr : ℕ → ℕ) (h : HugeAlloc) (live : List Buffer) (size : ℕ)
    → BsrLaw bsr
    → min_class_size < size
    → size ≤ max_class_size
    → IsSound (h, live)
    → (out : Option (Option Buffer × HugeAlloc)) → Allocated h (get_class bsr size) out
    → Kept (h, live) (do (r, h') ← out; some (h', hold r live))
unfolding owners
take-Kept bsr h live size law lo hi s out (exhausted nothing) = record {
  after = (h, live);
  runs = refl;
  sound = s;
  same = λ a. refl;
}
take-Kept bsr h live size law lo hi s out (given b after size_b valid taken tot) =
    let g = taken-Grown bsr h live size b after law lo hi s size_b valid taken in
    record { after = (after, b ∷ live); runs = refl; sound = g.sound; same = g.same }

give-Kept :
    (bsr : ℕ → ℕ) (h : HugeAlloc) (live : List Buffer) (i : ℕ) (b : Buffer)
    → BsrLaw bsr
    → IsSound (h, live)
    → get_elem? live i ≡ some b
    → Kept (h, live) (do h' ← free_buf bsr h b; some (h', remove_at i live))
unfolding owners
give-Kept bsr h live i b law s e =
    let k = held-get live i b s.held e in
    let zero_at : covers 0 b ≡ 0 = omega (arith, sum-remove_at (covers 0) live i b e, s.no_null) in
    let f = free_buf-Freed bsr h b law s.valid k (not_null b k.class_i k.size zero_at) in
    let kept = λ (a : ℕ). f.back (covers a) (covers-Additive a) in
    record {
      after = (f.after, remove_at i live);
      runs = rw f.runs;
      sound = record {
        valid = f.valid;
        held = held-remove_at live i s.held;
        no_null = omega (arith, kept 0, sum-remove_at (covers 0) live i b e, s.no_null);
      };
      same = λ a. omega (arith, kept a, sum-remove_at (covers a) live i b e);
    }

pub step-Kept :
    (bsr : ℕ → ℕ) (s : State) (o : Op)
    → BsrLaw bsr
    → Sized (o ∷ [])
    → IsSound s
    → Kept s (step bsr s o)
unfolding step
step-Kept bsr (h, live) (take size) law sized s =
    take-Kept bsr h live size law sized.0 sized.1 s (alloc bsr h size)
      (alloc-Allocated bsr h size law s.valid sized.0 sized.1)
step-Kept bsr (h, live) (give i) law sized s = elim (Option-cases (get_elem? live i)) [
  | inl none_there ↦
      rw (none_there, step) (record { after = (h, live); runs = refl; sound = s; same = λ a. refl })
  | inr (b, e) ↦ rw (e, step) (give-Kept bsr h live i b law s e)
]
