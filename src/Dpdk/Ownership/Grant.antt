-- ===== src/Dpdk/Ownership/Grant.antt =====
-- `get_qp`, `free_qp` and `daemon_reclaim_qps_from_crashed`: what each request does to the owners.
use axio_emulator.Prelude.{
  ℕ, ◌+◌, ◌-◌, ◌%◌, ◌^◌, ◌<◌, ◌≡◌, ◌≢◌, refl, sym, ap, ◌∙◌, [], true, some, length, length-set,
  get_or, set, get_or-set_self, get_or-set_ne, ◌==◌, inl, inr, Bool-cases, Option-cases, arith,
}
use axio_emulator.Dpdk.Ownership.{
  Owner, Memzone, no_owner, owners, max_phy_ports, max_queues_per_port, invalid_qp_id, clashes,
  first_free, get_qp, take_qp, FreeResult, success, ealready, eperm, free_qp,
}
use axio_emulator.Dpdk.Ownership.Counter.{
  is_owned, owned, IsMemzone, IsMemzone-set, owned-set, IsFirst, first_free-some, first_free-none,
}

-- The owner of queue pair `j` of port `p`.
abbrev pub owner_at : Memzone → ℕ → ℕ → Owner
owner_at z p j = get_or (owners z p) j no_owner

pub record Keeps (p i : ℕ) (z out : Memzone) : Type 0 where
  pub other_port : (q : ℕ) → q ≢ p → owners out q ≡ owners z q
  pub other_pair : (j : ℕ) → j ≢ i → owner_at out p j ≡ owner_at z p j

Keeps-set :
    (z : Memzone) (p i : ℕ) (o : Owner) (epoch num : ℕ)
    → p < length z.owner
    → Keeps p i z (record {
      epoch = epoch;
      num_qps_available = num;
      owner = set z.owner p (set (owners z p) i o);
    })
Keeps-set z p i o epoch num lt = record {
  other_port = λ q ne. get_or-set_ne z.owner p q _ [] (λ e. ne (sym e));
  other_pair = λ j ne.
      ap (λ os. get_or os j no_owner) (get_or-set_self z.owner p _ [] lt)
      ∙ get_or-set_ne (owners z p) i j o no_owner (λ e. ne (sym e));
}

owner_at-set :
    (z : Memzone) (p i : ℕ) (o : Owner) (epoch num : ℕ)
    → p < length z.owner
    → i < length (owners z p)
    → owner_at
        (record {
          epoch = epoch;
          num_qps_available = num;
          owner = set z.owner p (set (owners z p) i o);
        })
        p
        i
      ≡ o
owner_at-set z p i o epoch num lt li =
    ap (λ os. get_or os i no_owner) (get_or-set_self z.owner p _ [] lt)
    ∙ get_or-set_self (owners z p) i o no_owner li

pub data Got (my_pid p random : ℕ) (z out : Memzone) : ℕ → Type 0 where
  clash :
      clashes my_pid random (owners z p) ≡ true
      → out.owner ≡ z.owner
      → Got my_pid p random z out invalid_qp_id
  none_free :
      owned (owners z p) ≡ max_queues_per_port
      → out.owner ≡ z.owner
      → Got my_pid p random z out invalid_qp_id
  got :
      {i : ℕ}
      → i < max_queues_per_port
      → (owner_at z p i).pid ≡ 0
      → owner_at out p i ≡ record { pid = my_pid; proc_random_id = random }
      → Keeps p i z out
      → out.num_qps_available ≡ (2 ^ 64 + z.num_qps_available - 1) % 2 ^ 64
      → Got my_pid p random z out i

taken-Got :
    (my_pid p random i : ℕ) (z : Memzone)
    → IsMemzone z
    → p < max_phy_ports
    → my_pid ≢ 0
    → IsFirst (owners z p) i
    → let (out, ret) =
        take_qp my_pid p random (record z { epoch = (z.epoch + 1) % 2 ^ 64 }) (some i) in
      IsMemzone out × Got my_pid p random z out ret
unfolding take_qp
taken-Got my_pid p random i z v lt ne f =
    let o : Owner = record { pid = my_pid; proc_random_id = random } in
    let num = (2 ^ 64 + z.num_qps_available - 1) % 2 ^ 64 in
    let epoch = (z.epoch + 1) % 2 ^ 64 in
    let ports : p < length z.owner = omega (arith, v.ports) in
    let len = v.rows p lt in
    let sum = owned-set (owners z p) i o f.in_range in
    let mine : is_owned o ≡ 1 = ground arith in
    let before : is_owned (get_or (owners z p) i no_owner) ≡ 0 = ground (arith, f.is_free) in
    (
      IsMemzone-set z p (set (owners z p) i o) epoch num v lt (length-set (owners z p) i o ∙ len)
          (omega arith) (omega (arith, sum, mine, before, v.small)),
      got (omega (arith, f.in_range, len)) f.is_free
          (owner_at-set z p i o epoch num ports f.in_range) (Keeps-set z p i o epoch num ports)
          refl,
    )

pub get_qp-Got :
    (my_pid p random : ℕ) (z : Memzone)
    → IsMemzone z
    → p < max_phy_ports
    → my_pid ≢ 0
    → let (out, ret) = get_qp my_pid p random z in IsMemzone out × Got my_pid p random z out ret
unfolding get_qp take_qp
get_qp-Got my_pid p random z v lt ne =
    let same : IsMemzone (record z { epoch = (z.epoch + 1) % 2 ^ 64 }) = record {
      ports = v.ports;
      rows = v.rows;
      small = v.small;
      counted = v.counted;
    } in
    elim (Bool-cases (clashes my_pid random (owners z p))) [
      | inl c ↦ rw c (same, clash c refl)
      | inr c ↦ elim (Option-cases (first_free (owners z p))) [
        | inl n ↦ rw (c, n) (same, none_free (first_free-none (owners z p) n ∙ v.rows p lt) refl)
        | inr (i, s) ↦
            rw (c, s) (taken-Got my_pid p random i z v lt ne (first_free-some (owners z p) i s))
      ]
    ]

-- What `free_qp` decides, from the owner of the queue pair.
pub data Freed (my_pid p i : ℕ) (z out : Memzone) : FreeResult → Type 0 where
  already : (owner_at z p i).pid ≡ 0 → out.owner ≡ z.owner → Freed my_pid p i z out ealready
  not_mine :
      (owner_at z p i).pid ≢ 0
      → (owner_at z p i).pid ≢ my_pid
      → out.owner ≡ z.owner
      → Freed my_pid p i z out eperm
  freed :
      (owner_at z p i).pid ≡ my_pid
      → (owner_at out p i).pid ≡ 0
      → Keeps p i z out
      → out.num_qps_available ≡ (z.num_qps_available + 1) % 2 ^ 64
      → Freed my_pid p i z out success

-- Let the counter and the owned queue pairs of both ports together be 16 modulo 2^64. Giving back a
-- queue pair of a port keeps this so. One that is free already is refused with
-- EALREADY, one of another process with EPERM, both without a change of owner; one's own is free
-- afterwards, and no other changes owner.
pub free_qp-Freed :
    (my_pid p i : ℕ) (z : Memzone)
    → IsMemzone z
    → p < max_phy_ports
    → i < max_queues_per_port
    → let (out, ret) = free_qp my_pid p i z in IsMemzone out × Freed my_pid p i z out ret
unfolding free_qp
free_qp-Freed my_pid p i z v lt li =
    let same : IsMemzone (record z { epoch = (z.epoch + 1) % 2 ^ 64 }) = record {
      ports = v.ports;
      rows = v.rows;
      small = v.small;
      counted = v.counted;
    } in
    let o = owner_at z p i in
    let o' : Owner = record o { pid = 0 } in
    let num = (z.num_qps_available + 1) % 2 ^ 64 in
    let epoch = (z.epoch + 1) % 2 ^ 64 in
    let ports : p < length z.owner = omega (arith, v.ports) in
    let here : i < length (owners z p) = omega (arith, v.rows p lt) in
    elim (Bool-cases (o.pid == 0)) [
      | inl e ↦ rw e (same, already (ground arith) refl)
      | inr ne ↦ elim (Bool-cases (o.pid == my_pid)) [
        | inl m ↦
            let sum = owned-set (owners z p) i o' here in
            let was : is_owned o ≡ 1 = ground arith in
            rw (ne, m)
              (
                IsMemzone-set z p (set (owners z p) i o') epoch num v lt
                    (length-set (owners z p) i o' ∙ v.rows p lt) (omega arith)
                    (omega (arith, sum, was)),
                freed (ground arith)
                    (ap (λ (x : Owner). x.pid) (owner_at-set z p i o' epoch num ports here))
                    (Keeps-set z p i o' epoch num ports) refl,
              )
        | inr m ↦ rw (ne, m) (same, not_mine (ground arith) (ground arith) refl)
      ]
    ]

abbrev Restored : ℕ → Memzone → Memzone → FreeResult → Type 0
Restored p z out ret =
    (ret ≡ success)
    × (out.num_qps_available ≡ z.num_qps_available)
    × ((j : ℕ) → (owner_at out p j).pid ≡ (owner_at z p j).pid)

Freed-Restored :
    (my_pid p random : ℕ) (z mid out : Memzone) (i : ℕ) (ret : FreeResult)
    → IsMemzone z
    → my_pid ≢ 0
    → i ≢ invalid_qp_id
    → Got my_pid p random z mid i
    → Freed my_pid p i mid out ret
    → Restored p z out ret
Freed-Restored my_pid p random z mid out i ret v ne valid (clash c s) f = absurd (valid refl)
Freed-Restored my_pid p random z mid out i ret v ne valid (none_free c s) f = absurd (valid refl)
Freed-Restored my_pid p random z mid out i ret v ne valid (got li was mine keeps num)
      (already e s) =
    absurd (ne (sym (ap (λ (x : Owner). x.pid) mine) ∙ e))
Freed-Restored my_pid p random z mid out i ret v ne valid (got li was mine keeps num)
      (not_mine a b s) =
    absurd (b (ap (λ (x : Owner). x.pid) mine))
Freed-Restored my_pid p random z mid out i ret v ne valid (got li was mine keeps num)
      (freed a now keeps' num') =
    (
      refl,
      omega (arith, num, num', v.small),
      λ j. elim (Bool-cases (j == i)) [
        | inl e ↦ let eq : j ≡ i = ground arith in rw eq (now ∙ sym was)
        | inr n ↦
            ap (λ (x : Owner). x.pid)
              (keeps'.other_pair j (ground arith) ∙ keeps.other_pair j (ground arith))
      ],
    )

Got-range :
    (my_pid p random : ℕ) (z mid : Memzone) (i : ℕ)
    → Got my_pid p random z mid i
    → i ≢ invalid_qp_id
    → i < max_queues_per_port
Got-range my_pid p random z mid i (clash c s) valid = absurd (valid refl)
Got-range my_pid p random z mid i (none_free c s) valid = absurd (valid refl)
Got-range my_pid p random z mid i (got li was mine keeps num) valid = li

-- Giving back at once the queue pair just received succeeds, and restores the count and the process
-- of every queue pair of the port.
pub free_qp-get_qp :
    (my_pid p random : ℕ) (z : Memzone)
    → IsMemzone z
    → p < max_phy_ports
    → my_pid ≢ 0
    → (get_qp my_pid p random z).1 ≢ invalid_qp_id
    → let (mid, i) = get_qp my_pid p random z in
      let (out, ret) = free_qp my_pid p i mid in
      (ret ≡ success)
      × (out.num_qps_available ≡ z.num_qps_available)
      × ((j : ℕ) → (owner_at out p j).pid ≡ (owner_at z p j).pid)
free_qp-get_qp my_pid p random z v lt ne valid =
    let (mid, i) = get_qp my_pid p random z in
    let (v', g) = get_qp-Got my_pid p random z v lt ne in
    let range = Got-range my_pid p random z mid i g valid in
    Freed-Restored my_pid p random z mid _ i _ v ne valid g
      (free_qp-Freed my_pid p i mid v' lt range).1
