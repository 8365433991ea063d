-- ===== src/HugeAlloc/Split.antt =====
-- `split`, the chain of splits in `alloc`, and its search for a class with buffers.
use native.Mathlib.Decide.{ℕ_discrete}
use axio_emulator.Prelude.{
  ℕ, zero, suc, ◌+◌, ◌/◌, ◌≤◌, ◌<◌, ◌≡◌, refl, sym, ap, ◌∙◌, ◌≢◌, ◌⊎◌, inl, inr, some, true, false,
  Bool-cases, arith,
}
use axio_emulator.HugeAlloc.{
  Buffer, HugeAlloc, num_classes, class_max_size, new_buffer, is_empty, push, halve, split,
  find_class, split_down,
}
use axio_emulator.HugeAlloc.Classes.{class_max_size-suc}
use axio_emulator.HugeAlloc.Sums.{total, Additive}
use axio_emulator.HugeAlloc.Pop.{
  IsValid, pop_class-Popped, push-IsValid, total-push, ==_refl, ==_ne,
}

-- One `split`: its asserts hold, and it only cuts a buffer in two.
pub record IsSplit (h : HugeAlloc) (i : ℕ) : Type 0 where
  pub after : HugeAlloc
  pub runs : split (suc i) h ≡ some after
  pub valid : IsValid after
  pub filled : is_empty (after.freelist i) ≡ false
  pub below : (j : ℕ) → j < i → after.freelist j ≡ h.freelist j
  pub kept : (w : Buffer → ℕ) → Additive w → total w after ≡ total w h
  pub tot : after.user_alloc_tot ≡ h.user_alloc_tot

halve-IsValid :
    (h : HugeAlloc) (i : ℕ) (b : Buffer)
    → IsValid h
    → b.class_size ≡ class_max_size (suc i)
    → IsValid (halve h i b)
unfolding halve
halve-IsValid h i b v e =
    let half : b.class_size / 2 ≡ class_max_size i = omega (arith, class_max_size-suc i) in
    push-IsValid _ i _ (push-IsValid h i _ v half) half

halve-total :
    (w : Buffer → ℕ) (h : HugeAlloc) (i : ℕ) (b : Buffer)
    → Additive w
    → i < num_classes
    → b.class_size ≡ class_max_size (suc i)
    → total w (halve h i b) ≡ total w h + w b
unfolding halve
halve-total w h i b add lt e =
    let lo = new_buffer b.buf (b.class_size / 2) b.lkey in
    let hi = new_buffer (b.buf + b.class_size / 2) (b.class_size / 2) b.lkey in
    omega (arith, total-push w (push h i lo) i hi lt, total-push w h i lo lt, add.halves b i e)

halve-frame :
    (h : HugeAlloc) (i : ℕ) (b : Buffer)
    → (is_empty ((halve h i b).freelist i) ≡ false)
      × ((j : ℕ) → j ≢ i → (halve h i b).freelist j ≡ h.freelist j)
      × ((halve h i b).user_alloc_tot ≡ h.user_alloc_tot)
unfolding halve push
halve-frame h i b = (rw (==_refl i), λ j ne. simp (==_ne j i ne), refl)

IsSplit-runs :
    (h : HugeAlloc) (i : ℕ)
    → IsValid h
    → suc i < num_classes
    → is_empty (h.freelist i) ≡ true
    → is_empty (h.freelist (suc i)) ≡ false
    → IsSplit h i
unfolding split
IsSplit-runs h i v lt none_here some_above =
    let p = pop_class-Popped h (suc i) v some_above in
    let (filled, frame, tot) = halve-frame p.after i p.buffer in
    record {
      after = halve p.after i p.buffer;
      runs = rw (none_here, p.runs);
      valid = halve-IsValid p.after i p.buffer p.valid p.size;
      filled = filled;
      below = λ j small. frame j (omega arith) ∙ p.below j (omega arith);
      kept = λ w add.
          omega (arith, halve-total w p.after i p.buffer add (omega arith) p.size, p.taken w lt);
      tot = tot ∙ p.tot;
    }

-- The chain of splits from a class that has buffers down to one that has none.
pub record IsRefill (h : HugeAlloc) (n c : ℕ) : Type 0 where
  pub after : HugeAlloc
  pub runs : split_down n c h ≡ some after
  pub valid : IsValid after
  pub filled : is_empty (after.freelist c) ≡ false
  pub kept : (w : Buffer → ℕ) → Additive w → total w after ≡ total w h
  pub tot : after.user_alloc_tot ≡ h.user_alloc_tot

pub split_down-IsRefill :
    (n c : ℕ) (h : HugeAlloc)
    → IsValid h
    → n + c < num_classes
    → ((k : ℕ) → c ≤ k → k < n + c → is_empty (h.freelist k) ≡ true)
    → is_empty (h.freelist (n + c)) ≡ false
    → IsRefill h n c
unfolding split_down
split_down-IsRefill zero c h v lt none_below filled = record {
  after = h;
  runs = refl;
  valid = v;
  filled = ap (λ k. is_empty (h.freelist k)) (zero-add' c) ∙ filled;
  kept = λ w add. refl;
  tot = refl;
}
  where
    zero-add' : (c : ℕ) → c ≡ 0 + c
    zero-add' c = omega arith
split_down-IsRefill (suc n) c h v lt none_below filled =
    let up : suc n + c ≡ suc (n + c) = omega arith in
    let s =
      IsSplit-runs h (n + c) v (omega arith) (none_below (n + c) (omega arith) (omega arith))
        (ap (λ k. is_empty (h.freelist k)) (sym up) ∙ filled) in
    let r =
      split_down-IsRefill n c s.after s.valid (omega arith)
        (λ k lo hi. ap is_empty (s.below k hi) ∙ none_below k lo (omega arith)) s.filled in
    record {
      after = r.after;
      runs = rw s.runs r.runs;
      valid = r.valid;
      filled = r.filled;
      kept = λ w add. r.kept w add ∙ s.kept w add;
      tot = r.tot ∙ s.tot;
    }

-- The search stops at the first class with buffers, or past the last class.
pub record Found (h : HugeAlloc) (left next r : ℕ) : Type 0 where
  pub from : next ≤ r
  pub upto : r ≤ next + left
  pub passed : (k : ℕ) → next ≤ k → k < r → is_empty (h.freelist k) ≡ true
  pub stop : (r ≡ next + left) ⊎ (is_empty (h.freelist r) ≡ false)

pub find_class-Found : (h : HugeAlloc) (left next : ℕ) → Found h left next (find_class h left next)
unfolding find_class
find_class-Found h zero next = record {
  from = omega arith;
  upto = omega arith;
  passed = λ k lo hi. absurd (omega arith);
  stop = inl (omega arith);
}
find_class-Found h (suc left) next = elim (Bool-cases (is_empty (h.freelist next))) [
  | inl skip ↦
      let f = find_class-Found h left (next + 1) in
      rw skip (record {
        from = omega (arith, f.from);
        upto = omega (arith, f.upto);
        passed = λ k lo hi. elim (ℕ_discrete k next) [
          | yes at ↦ ap (λ j. is_empty (h.freelist j)) at ∙ skip
          | no later ↦ f.passed k (omega arith) hi
        ];
        stop = elim f.stop [ inl e ↦ inl (omega arith) | inr e ↦ inr e ];
      })
  | inr here ↦ rw here (record {
    from = omega arith;
    upto = omega arith;
    passed = λ k lo hi. absurd (omega arith);
    stop = inr here;
  })
]
