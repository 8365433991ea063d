-- ===== src/Dpdk/Ownership/Crashed.antt =====
-- `daemon_reclaim_qps_from_crashed`.
use axio_emulator.Prelude.{
  ℕ, zero, suc, ◌+◌, ◌%◌, ◌^◌, ◌<◌, ◌≡◌, refl, ap, ◌∙◌, List, [], ◌∷◌, Bool, true, length, get_or,
  get_or-set_self, Bool-cases, inl, inr, if◌then◌else◌, arith,
}
use axio_emulator.Dpdk.Ownership.{
  Owner, Memzone, no_owner, owners, max_phy_ports, reclaim, reclaim_crashed,
}
use axio_emulator.Dpdk.Ownership.Counter.{is_owned, owned, IsMemzone, IsMemzone-set}
use axio_emulator.Dpdk.Ownership.Grant.{owner_at}

-- What is left of the owner of a queue pair.
abbrev survivor : (ℕ → Bool) → Owner → Owner
survivor alive o = if alive o.pid then o else record o { pid = 0 }

record Reclaimed (alive : ℕ → Bool) (os : List Owner) (num : ℕ) (os' : List Owner) (num' : ℕ)
    : Type 0 where
  len : length os' ≡ length os
  small : num' < 2 ^ 64
  counted : (num' + owned os') % 2 ^ 64 ≡ (num + owned os) % 2 ^ 64
  each : (j : ℕ) → get_or os' j no_owner ≡ survivor alive (get_or os j no_owner)

reclaim-Reclaimed :
    (alive : ℕ → Bool) (os : List Owner) (num : ℕ)
    → alive 0 ≡ true
    → num < 2 ^ 64
    → Reclaimed alive os num (reclaim alive os num).0 (reclaim alive os num).1
reclaim-Reclaimed alive [] num root lt = record {
  len = refl;
  small = lt;
  counted = refl;
  each = λ j. rw root refl;
}
reclaim-Reclaimed alive (o ∷ os) num root lt = elim (Bool-cases (alive o.pid)) [
  | inl e ↦
      let r = reclaim-Reclaimed alive os num root lt in
      rw e (record {
        len = ap suc r.len;
        small = r.small;
        counted = omega (arith, r.counted);
        each = each_lem o os _ _ (rw e refl) r.each;
      })
  | inr e ↦
      let r = reclaim-Reclaimed alive os ((num + 1) % 2 ^ 64) root (omega arith) in
      let was : is_owned o ≡ 1 = ground (arith, e, root) in
      rw e (record {
        len = ap suc r.len;
        small = r.small;
        counted = omega (arith, r.counted, was);
        each = each_lem o os _ _ (rw e refl) r.each;
      })
]
  where
    each_lem :
        (x : Owner) (xs : List Owner) (x' : Owner) (xs' : List Owner)
        → x' ≡ survivor alive x
        → ((j : ℕ) → get_or xs' j no_owner ≡ survivor alive (get_or xs j no_owner))
        → (j : ℕ) → get_or (x' ∷ xs') j no_owner ≡ survivor alive (get_or (x ∷ xs) j no_owner)
    each_lem x xs x' xs' e f zero = e
    each_lem x xs x' xs' e f (suc j) = f j

-- Where `kill(0, 0)` succeeds, the reclaim keeps the count of the queue pairs available right; a
-- queue pair of the port whose process has died is free afterwards, and every other keeps its
-- owner.
pub reclaim_crashed-IsMemzone :
    (alive : ℕ → Bool) (p : ℕ) (z : Memzone)
    → alive 0 ≡ true
    → IsMemzone z
    → p < max_phy_ports
    → IsMemzone (reclaim_crashed alive p z)
      × ((j : ℕ)
          → owner_at (reclaim_crashed alive p z) p j ≡ (
              if alive (owner_at z p j).pid
              then owner_at z p j
              else record (owner_at z p j) { pid = 0 }))
unfolding reclaim_crashed
reclaim_crashed-IsMemzone alive p z root v lt =
    let r = reclaim-Reclaimed alive (owners z p) z.num_qps_available root v.small in
    let (os, num) = reclaim alive (owners z p) z.num_qps_available in
    (
      IsMemzone-set z p os z.epoch num v lt (r.len ∙ v.rows p lt) r.small r.counted,
      λ j.
          ap (λ xs. get_or xs j no_owner) (get_or-set_self z.owner p os [] (omega (arith, v.ports)))
          ∙ r.each j,
    )
