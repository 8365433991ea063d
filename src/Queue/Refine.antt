-- ===== src/Queue/Refine.antt =====
-- A valid ring is a first-in first-out list of at most 4095 pointers.
use axio_emulator.Prelude.{
  ℕ, zero, suc, ◌+◌, ◌-◌, ◌%◌, ◌^◌, ◌<◌, ◌≡◌, refl, sym, ap, ap₂, ◌∙◌, ◌≢◌, List, [], ◌∷◌, ◌++◌,
  Bool, true, false, length, get_or, set, length-set, length-replicate, get_or-set_self,
  get_or-set_ne, bit_and_mask12, ltb, if◌then◌else◌, arith,
}
use axio_emulator.Queue.{LockFreeQueue, ws_queue_size, init, next_index, enqueue, dequeue, get_size}

pub record IsValid (q : LockFreeQueue) : Type 0 where
  pub storage : length q.queue ≡ ws_queue_size
  pub head_in : q.head < ws_queue_size
  pub tail_in : q.tail < ws_queue_size

-- The number of slots from `head_` to `tail_`, going round.
abbrev pub used : LockFreeQueue → ℕ
used q = (q.tail + ws_queue_size - q.head) % ws_queue_size

-- The `n` pointers from index `h` on, going round at the end of the array.
abbrev pub slots : List ℕ → ℕ → ℕ → List ℕ
slots buf h zero = []
slots buf h (suc n) = get_or buf h 0 ∷ slots buf ((h + 1) % ws_queue_size) n

-- What the queue holds, oldest first.
abbrev pub contents : LockFreeQueue → List ℕ
contents q = slots q.queue q.head (used q)

pub next_index-mod : (i : ℕ) → i < ws_queue_size → next_index i ≡ (i + 1) % ws_queue_size
unfolding next_index
next_index-mod i h = omega (arith, bit_and_mask12 ((i + 1) % 2 ^ 64))

pub length-slots : (buf : List ℕ) (h n : ℕ) → length (slots buf h n) ≡ n
length-slots buf h zero = refl
length-slots buf h (suc n) = ap suc (length-slots buf ((h + 1) % ws_queue_size) n)

-- A write just past the pointers that are held appends to them.
pub slots-set :
    (buf : List ℕ) (x n h i : ℕ)
    → length buf ≡ ws_queue_size
    → h < ws_queue_size
    → n < ws_queue_size
    → i ≡ (h + n) % ws_queue_size
    → slots (set buf i x) h (suc n) ≡ slots buf h n ++ (x ∷ [])
slots-set buf x zero h i len hh hn e =
    let at : i ≡ h = omega arith in
    rw at (ap (λ v. v ∷ []) (get_or-set_self buf h x 0 (omega arith)))
slots-set buf x (suc n) h i len hh hn e =
    ap₂ ◌∷◌ (get_or-set_ne buf i h x 0 (omega arith))
      (slots-set buf x n ((h + 1) % ws_queue_size) i len (omega arith) (omega arith) (omega arith))

-- `slots` matches on `suc`, the code tests `head_ == tail_`.
pub slots_ne_zero :
    (buf : List ℕ) (h n : ℕ)
    → n ≢ 0
    → slots buf h n ≡ get_or buf h 0 ∷ slots buf ((h + 1) % ws_queue_size) (n - 1)
slots_ne_zero buf h zero p = absurd (p refl)
slots_ne_zero buf h (suc n) p = ap (λ k. slots buf h (suc k)) (omega arith)

pub init-IsValid : IsValid init
unfolding init
init-IsValid = record {
  storage = length-replicate ws_queue_size 0;
  head_in = omega arith;
  tail_in = omega arith;
}

-- A bounded FIFO.
abbrev pub capacity : ℕ
capacity = ws_queue_size - 1

unfoldable pub fifo_enqueue : List ℕ → ℕ → Bool × List ℕ
fifo_enqueue xs p = if ltb (length xs) capacity then (true, xs ++ (p ∷ [])) else (false, xs)

unfoldable pub fifo_dequeue : List ℕ → ℕ × List ℕ
fifo_dequeue [] = (0, [])
fifo_dequeue (x ∷ xs) = (x, xs)

pub enqueue-IsValid : {q : LockFreeQueue} (p : ℕ) → IsValid q → IsValid (enqueue q p).1
unfolding enqueue
enqueue-IsValid {q} p v = ground (arith, next_index-mod q.tail, length-set q.queue q.tail p)

pub dequeue-IsValid : {q : LockFreeQueue} → IsValid q → IsValid (dequeue q).1
unfolding dequeue
dequeue-IsValid {q} v = ground (arith, next_index-mod q.head)

pub get_size-used : {q : LockFreeQueue} → IsValid q → get_size q ≡ used q
unfolding get_size
get_size-used {q} v = omega (arith, bit_and_mask12 ((2 ^ 64 + q.tail - q.head) % 2 ^ 64))

-- On a valid ring `get_size` is the number of pointers held.
pub get_size-length : {q : LockFreeQueue} → IsValid q → get_size q ≡ length (contents q)
get_size-length {q} v = get_size-used v ∙ sym (length-slots q.queue q.head (used q))

-- On a valid ring `enqueue` answers and changes the contents as the bounded list does.
pub enqueue_refines :
    {q : LockFreeQueue} (p : ℕ)
    → IsValid q
    → let (done, q') = enqueue q p in (done, contents q') ≡ fifo_enqueue (contents q) p
unfolding enqueue fifo_enqueue
enqueue_refines {q} p v = ground (
  arith,
  next_index-mod q.tail,
  length-slots q.queue q.head (used q),
  slots-set q.queue p (used q) q.head q.tail,
)

-- On a valid ring `dequeue` returns and leaves what the bounded list does, and `nullptr` when empty.
pub dequeue_refines :
    {q : LockFreeQueue}
    → IsValid q
    → let (p, q') = dequeue q in (p, contents q') ≡ fifo_dequeue (contents q)
unfolding dequeue fifo_dequeue
dequeue_refines {q} v = ground (arith, next_index-mod q.head, slots_ne_zero q.queue q.head (used q))

-- Among several rings, one of which is replaced.
pub set-IsValid :
    (qs : List LockFreeQueue) (j i : ℕ) (q : LockFreeQueue)
    → ((i : ℕ) → IsValid (get_or qs i init))
    → IsValid q
    → IsValid (get_or (set qs j q) i init)
set-IsValid [] j i q all v = all i
set-IsValid (x ∷ xs) zero zero q all v = v
set-IsValid (x ∷ xs) zero (suc i) q all v = all (suc i)
set-IsValid (x ∷ xs) (suc j) zero q all v = all 0
set-IsValid (x ∷ xs) (suc j) (suc i) q all v = set-IsValid xs j i q (λ k. all (suc k)) v
