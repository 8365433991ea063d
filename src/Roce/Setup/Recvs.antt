-- ===== src/Roce/Setup/Recvs.antt =====
-- The receive ring: what the loops of `init_recvs` leave in the descriptors and the Buffers.
use mathlib.Core.Path.{subst}
use native.Mathlib.Decide.{ℕ_discrete}
use axio_emulator.Prelude.{
  ℕ, zero, suc, ◌+◌, ◌<◌, ◌≡◌, refl, sym, ap, ◌∙◌, ◌≢◌, List, [], ◌∷◌, ◌++◌, some, true, false,
  length, length-append, get_elem?, set, leb, ◌==◌, arith,
}
use axio_emulator.HugeAlloc.{Buffer, posted, new_buffer}
use axio_emulator.Roce.{depth}
use axio_emulator.Roce.Connect.{RoceType, ud, rc}
use axio_emulator.Roce.Setup.{
  RecvRing, mbuf_size, ring_extent_size, chunk_offset, packet_room, packet_offset, recv_wr_at,
  init_recv, init_recv_loop,
}

get_elem?-append_lt {ℓ} :
    {A : Type ℓ} (xs ys : List A) (i : ℕ) → i < length xs → get_elem? (xs ++ ys) i ≡ get_elem? xs i
get_elem?-append_lt [] ys i lt = absurd (omega arith)
get_elem?-append_lt (x ∷ xs) ys zero lt = refl
get_elem?-append_lt (x ∷ xs) ys (suc i) lt = get_elem?-append_lt xs ys i (omega arith)

get_elem?-append_last {ℓ} :
    {A : Type ℓ} (xs : List A) (x : A) → get_elem? (xs ++ (x ∷ [])) (length xs) ≡ some x
get_elem?-append_last [] x = refl
get_elem?-append_last (y ∷ xs) x = get_elem?-append_last xs x

pub get_elem?-set_same {ℓ} :
    {A : Type ℓ} (xs : List A) (i : ℕ) (x : A) → i < length xs → get_elem? (set xs i x) i ≡ some x
get_elem?-set_same [] i x lt = absurd (omega arith)
get_elem?-set_same (y ∷ xs) zero x lt = refl
get_elem?-set_same (y ∷ xs) (suc i) x lt = get_elem?-set_same xs i x (omega arith)

pub get_elem?-set_ne {ℓ} :
    {A : Type ℓ} (xs : List A) (i j : ℕ) (x : A) → i ≢ j → get_elem? (set xs i x) j ≡ get_elem? xs j
get_elem?-set_ne [] i j x ne = refl
get_elem?-set_ne (y ∷ xs) zero zero x ne = absurd (ne refl)
get_elem?-set_ne (y ∷ xs) zero (suc j) x ne = refl
get_elem?-set_ne (y ∷ xs) (suc i) zero x ne = refl
get_elem?-set_ne (y ∷ xs) (suc i) (suc j) x ne = get_elem?-set_ne xs i j x (λ e. ne (ap suc e))

-- The first `n` entries of a list are those of `f`.
pub record IsListed {ℓ} {A : Type ℓ} (f : ℕ → A) (n : ℕ) (xs : List A) : Type ℓ where
  pub size : length xs ≡ n
  pub at : (j : ℕ) → j < n → get_elem? xs j ≡ some (f j)

Listed-next {ℓ} :
    {A : Type ℓ} (f : ℕ → A) (n : ℕ) (xs : List A)
    → IsListed f n xs
    → IsListed f (n + 1) (xs ++ (f n ∷ []))
Listed-next f n xs l = record {
  size = omega (arith, length-append xs (f n ∷ []), l.size);
  at = λ j lt. elim (ℕ_discrete j n) [
    | yes e ↦ rw e (ap (get_elem? (xs ++ (f n ∷ []))) (sym l.size) ∙ get_elem?-append_last xs (f n))
    | no ne ↦ get_elem?-append_lt xs (f n ∷ []) j (omega (arith, l.size)) ∙ l.at j (omega arith)
  ];
}

-- The addresses that `new` gives are different.
abbrev pub AreFresh : (ℕ → ℕ) → Type 0
AreFresh fresh = (i j : ℕ) → fresh i ≡ fresh j → i ≡ j

abbrev pub rx_buffer : RoceType → Buffer → ℕ → Buffer
rx_buffer type extent i =
    record (new_buffer (extent.buf + packet_offset type i) mbuf_size extent.lkey) { state = posted }

-- The ring after `n` turns of the first loop.
pub record IsFilled (type : RoceType) (fresh : ℕ → ℕ) (extent : Buffer) (n : ℕ) (r : RecvRing)
    : Type 0 where
  pub descriptors : IsListed (recv_wr_at type extent) n r.recv_wr
  pub ring : IsListed fresh n r.rx_ring
  pub buffers : (j : ℕ) → j < n → r.placed (fresh j) ≡ rx_buffer type extent j
  pub posted_all : (j : ℕ) → j < n → (r.mem (fresh j)).state ≡ posted

pub ==_same : (i : ℕ) → (i == i) ≡ true
==_same i = ground arith

pub ==_other : (i j : ℕ) → i ≢ j → (i == j) ≡ false
==_other i j ne = ground arith

init_recv-IsFilled :
    (type : RoceType) (fresh : ℕ → ℕ) (extent : Buffer) (n : ℕ) (r : RecvRing)
    → AreFresh fresh
    → IsFilled type fresh extent n r
    → IsFilled type fresh extent (n + 1) (init_recv type fresh extent n r)
unfolding init_recv
init_recv-IsFilled type fresh extent n r new f = record {
  descriptors = Listed-next (recv_wr_at type extent) n r.recv_wr f.descriptors;
  ring = Listed-next fresh n r.rx_ring f.ring;
  buffers = λ j lt. elim (ℕ_discrete j n) [
    | yes e ↦ rw (e, ==_same (fresh n)) refl
    | no ne ↦ rw (==_other (fresh j) (fresh n) (λ e. ne (new j n e))) (f.buffers j (omega arith))
  ];
  posted_all = λ j lt. elim (ℕ_discrete j n) [
    | yes e ↦ rw (e, ==_same (fresh n)) refl
    | no ne ↦ rw (==_other (fresh j) (fresh n) (λ e. ne (new j n e))) (f.posted_all j (omega arith))
  ];
}

fits :
    (type : RoceType) (i : ℕ)
    → i < depth
    → leb (chunk_offset type i + packet_room type) ring_extent_size ≡ true
fits ud i lt = ground arith
fits rc i lt = ground arith

pub init_recv_loop-IsFilled :
    (type : RoceType) (fresh : ℕ → ℕ) (extent : Buffer) (left n : ℕ) (r : RecvRing)
    → AreFresh fresh
    → n + left ≡ depth
    → IsFilled type fresh extent n r
    → (out : RecvRing) × (init_recv_loop type fresh extent left n r ≡ some out)
      × IsFilled type fresh extent depth out
unfolding init_recv_loop
init_recv_loop-IsFilled type fresh extent zero n r new e f =
    (r, refl, subst (λ k. IsFilled type fresh extent k r) last f)
  where
    last : n ≡ depth
    last = omega (arith, e)
init_recv_loop-IsFilled type fresh extent (suc left) n r new e f =
    let (out, runs, filled) =
      init_recv_loop-IsFilled type fresh extent left (n + 1) (init_recv type fresh extent n r) new
        (omega arith) (init_recv-IsFilled type fresh extent n r new f) in
    (out, rw (fits type n (omega arith)) runs, filled)
