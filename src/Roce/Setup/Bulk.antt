-- ===== src/Roce/Setup/Bulk.antt =====
-- `roce_mbuf_alloc_bulk`: either every buffer is there, or the loop reads through `nullptr`. The
-- branch that rolls back is never taken.
use mathlib.Core.Path.{subst}
use mathlib.Core.List.{append_assoc, append-nil}
use axio_emulator.Prelude.{
  ℕ, zero, suc, ◌≤◌, ◌<◌, ◌≡◌, refl, sym, ap, ◌∙◌, ◌≢◌, List, [], ◌∷◌, ◌++◌, Option, none, some,
  true, length, ◌==◌, if◌then◌else◌, arith,
}
use axio_emulator.HugeAlloc.{Buffer, HugeAlloc, num_classes, class_max_size, is_empty, get_class}
use axio_emulator.HugeAlloc.Classes.{BsrLaw, get_class-class_max_size}
use axio_emulator.HugeAlloc.Pop.{AllSize, ==_ne}
use axio_emulator.HugeAlloc.Alloc.{exhausted, given, alloc-Allocated}
use axio_emulator.HugeAlloc.History.{owners, IsSound, not_null}
use axio_emulator.HugeAlloc.Kept.{Grown, taken-Grown}
use axio_emulator.Roce.Connect.{◌>>=◌}
use axio_emulator.Roce.Setup.{mbuf_size, alloc_bulk_loop, mbuf_alloc_bulk, mbuf_alloc, free_all}

-- The buffers that are held after `bs` were allocated in order.
abbrev pub hold_all : List Buffer → List Buffer → List Buffer
hold_all [] live = live
hold_all (b ∷ bs) live = hold_all bs (b ∷ live)

-- No buffer of 4096 bytes can be had: its class, class 6, and the larger ones are empty.
abbrev pub IsExhausted : HugeAlloc → Type 0
IsExhausted h = (k : ℕ) → 6 ≤ k → k < num_classes → is_empty (h.freelist k) ≡ true

-- What the loop does, for `left` buffers more.
pub data Bulk (h : HugeAlloc) (live got : List Buffer) (left : ℕ)
    : Option (ℕ × List Buffer × HugeAlloc) → Type 0 where
  filled :
      (bs : List Buffer) (after : HugeAlloc)
      → length bs ≡ left
      → AllSize mbuf_size bs
      → IsSound (after, hold_all bs live)
      → ((a : ℕ) → owners a (after, hold_all bs live) ≡ owners a (h, live))
      → Bulk h live got left (some (0, got ++ bs, after))
  faulted :
      (bs : List Buffer) (after : HugeAlloc)
      → length bs < left
      → IsSound (after, hold_all bs live)
      → IsExhausted after
      → Bulk h live got left none

mbuf_class : mbuf_size ≡ class_max_size 6
unfolding class_max_size
mbuf_class = refl

class-mbuf_size : (bsr : ℕ → ℕ) → BsrLaw bsr → get_class bsr mbuf_size ≡ 6
class-mbuf_size bsr law =
    ap (get_class bsr) mbuf_class ∙ get_class-class_max_size bsr 6 law (omega arith) (omega arith)

-- One buffer more in front.
Bulk-suc :
    (h after : HugeAlloc) (live got : List Buffer) (b : Buffer) (left : ℕ)
    → b.class_size ≡ mbuf_size
    → Grown h live b after
    → (out : Option (ℕ × List Buffer × HugeAlloc))
    → Bulk after (b ∷ live) (got ++ (b ∷ [])) left out
    → Bulk h live got (suc left) out
Bulk-suc h after live got b left size g out (filled bs last n sizes sound same) =
    subst (λ all. Bulk h live got (suc left) (some (0, all, last)))
      (sym (append_assoc got (b ∷ []) bs))
      (filled (b ∷ bs) last (omega arith) (size, sizes) sound (λ a. same a ∙ g.same a))
Bulk-suc h after live got b left size g out (faulted bs last n sound none_left) =
    faulted (b ∷ bs) last (omega arith) sound none_left

module _ (bsr : ℕ → ℕ) (law : BsrLaw bsr) where
  given-not_null :
      {h : HugeAlloc} {live : List Buffer} {b : Buffer} {after : HugeAlloc}
      → b.class_size ≡ class_max_size (get_class bsr mbuf_size)
      → Grown h live b after
      → b.buf ≢ 0
  unfolding owners
  given-not_null {h} {live} {b} {after} size g =
      not_null b (get_class bsr mbuf_size) size (omega (arith, g.sound.no_null))

  loop-Bulk :
      (left : ℕ) (got live : List Buffer) (h : HugeAlloc)
      → IsSound (h, live)
      → Bulk h live got left (alloc_bulk_loop bsr left got h)
  unfolding alloc_bulk_loop mbuf_alloc
  loop-Bulk zero got live h s =
      subst (λ all. Bulk h live got 0 (some (0, all, h))) (append-nil got)
        (filled [] h refl tt s (λ a. refl))
  loop-Bulk (suc left) got live h s =
      let class = class-mbuf_size bsr law in
      elim (alloc-Allocated bsr h mbuf_size law s.valid (omega arith) (omega arith))
        as (λ out _. Bulk h live got (suc left) (do
          (r, h') ← out
          b ← r
          (let rest = alloc_bulk_loop bsr left (got ++ (b ∷ [])) h' in
              if b.buf == 0
              then (do h'' ← free_all bsr h' got; some (255, got ++ (b ∷ []), h''))
              else rest))) [
                | exhausted none_left ↦
                    faulted [] h (omega arith) s (λ k lo hi. none_left k (omega (arith, class)) hi)
                | given b after size valid taken tot ↦
                    let g =
                      taken-Grown bsr h live mbuf_size b after law (omega arith) (omega arith) s
                        size valid taken in
                    rw (==_ne b.buf 0 (given-not_null size g)) (
                      Bulk-suc h after live got b left
                        (size ∙ ap class_max_size class ∙ sym mbuf_class) g _
                        (loop-Bulk left (got ++ (b ∷ [])) (b ∷ live) after g.sound))
              ]

-- From a sound allocator and with the documented `bsrl`, either the code 0 comes back with that many
-- new buffers of 4096 bytes, of which each is held, while every address has as many owners, held or
-- free, as before, or, once no class from class 6 on has a buffer, the loop reads through `nullptr`. It never returns the code of a failure.
pub mbuf_alloc_bulk-Bulk :
    (bsr : ℕ → ℕ) (num : ℕ) (h : HugeAlloc) (live : List Buffer)
    → BsrLaw bsr
    → IsSound (h, live)
    → Bulk h live [] num (mbuf_alloc_bulk bsr h num)
unfolding mbuf_alloc_bulk
mbuf_alloc_bulk-Bulk bsr num h live law s = loop-Bulk bsr law num [] live h s
