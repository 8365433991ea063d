-- ===== src/Dpdk/Ownership/Counter.antt =====
-- The counter `num_qps_available_` and the owners of the queue pairs agree.
use axio_emulator.Prelude.{
  ℕ, zero, suc, ◌+◌, ◌%◌, ◌^◌, ◌<◌, ◌≡◌, refl, ap, ◌∙◌, List, [], ◌∷◌, none, some, length,
  replicate, length-set, get_or, set, get_or-set_self, get_or-set_ne, ◌==◌, inl, inr, if◌then◌else◌,
  Bool-cases, Option-cases, arith,
}
use axio_emulator.Dpdk.Ownership.{
  Owner, Memzone, no_owner, owners, max_phy_ports, max_queues_per_port, first_free, init,
}

abbrev pub is_owned : Owner → ℕ
is_owned o = if o.pid == 0 then 0 else 1

-- The queue pairs of a port that are owned, and those of all ports.
abbrev pub owned : List Owner → ℕ
owned [] = 0
owned (o ∷ os) = is_owned o + owned os

abbrev pub total : List (List Owner) → ℕ
total [] = 0
total (os ∷ oss) = owned os + total oss

pub record IsMemzone (z : Memzone) : Type 0 where
  pub ports : length z.owner ≡ max_phy_ports
  pub rows : (p : ℕ) → p < max_phy_ports → length (owners z p) ≡ max_queues_per_port
  pub small : z.num_qps_available < 2 ^ 64
  pub counted : (z.num_qps_available + total z.owner) % 2 ^ 64 ≡ max_queues_per_port

pub owned-set :
    (os : List Owner) (i : ℕ) (o : Owner)
    → i < length os
    → owned (set os i o) + is_owned (get_or os i no_owner) ≡ owned os + is_owned o
owned-set [] i o lt = absurd (omega arith)
owned-set (x ∷ xs) zero o lt = omega arith
owned-set (x ∷ xs) (suc i) o lt = omega (arith, owned-set xs i o (omega arith))

pub total-set :
    (oss : List (List Owner)) (p : ℕ) (os : List Owner)
    → p < length oss
    → total (set oss p os) + owned (get_or oss p []) ≡ total oss + owned os
total-set [] p os lt = absurd (omega arith)
total-set (x ∷ xs) zero os lt = omega arith
total-set (x ∷ xs) (suc p) os lt = omega (arith, total-set xs p os (omega arith))

-- A row of `z` is replaced by one of the same length, and the counter makes up for the difference.
pub IsMemzone-set :
    (z : Memzone) (p : ℕ) (os : List Owner) (epoch num : ℕ)
    → IsMemzone z
    → p < max_phy_ports
    → length os ≡ max_queues_per_port
    → num < 2 ^ 64
    → (num + owned os) % 2 ^ 64 ≡ (z.num_qps_available + owned (owners z p)) % 2 ^ 64
    → IsMemzone (record { epoch = epoch; num_qps_available = num; owner = set z.owner p os })
IsMemzone-set z p os epoch num v lt len small same = record {
  ports = length-set z.owner p os ∙ v.ports;
  rows = λ q lq. elim (Bool-cases (q == p)) [
    | inl e ↦
        let eq : q ≡ p = ground arith in
        ap (λ k. length (get_or (set z.owner p os) k [])) eq
        ∙ ap length (get_or-set_self z.owner p os [] (omega (arith, v.ports)))
        ∙ len
    | inr e ↦ ap length (get_or-set_ne z.owner p q os [] (ground arith)) ∙ v.rows q lq
  ];
  small = small;
  counted = omega (arith, total-set z.owner p os (omega (arith, v.ports)), v.counted, same);
}

pub record IsFirst (os : List Owner) (i : ℕ) : Type 0 where
  pub in_range : i < length os
  pub is_free : (get_or os i no_owner).pid ≡ 0

pub first_free-some : (os : List Owner) (i : ℕ) → first_free os ≡ some i → IsFirst os i
first_free-some [] i e = absurd (ground (arith, e))
first_free-some (o ∷ os) i e = elim (Bool-cases (o.pid == 0)) [
  | inl z ↦
      let at : i ≡ 0 = ground (arith, e, z) in
      rw at (record { in_range = omega arith; is_free = ground (arith, z) })
  | inr nz ↦ elim (Option-cases (first_free os)) [
    | inl n ↦ absurd (ground (arith, e, nz, n))
    | inr (j, s) ↦
        let at : i ≡ suc j = ground (arith, e, nz, s) in
        let r = first_free-some os j s in
        rw at (record { in_range = omega (arith, r.in_range); is_free = r.is_free })
  ]
]

pub first_free-none : (os : List Owner) → first_free os ≡ none → owned os ≡ length os
first_free-none [] e = refl
first_free-none (o ∷ os) e = elim (Option-cases (first_free os)) [
  | inl n ↦ ground (arith, e, first_free-none os n)
  | inr (j, s) ↦ absurd (ground (arith, e, s))
]

init_rows : (p : ℕ) → p < max_phy_ports → length (owners init p) ≡ max_queues_per_port
unfolding init replicate
init_rows zero lt = refl
init_rows (suc zero) lt = refl
init_rows (suc (suc p)) lt = absurd (omega arith)

pub init-IsMemzone : IsMemzone init
unfolding init replicate
init-IsMemzone = record { ports = refl; rows = init_rows; small = omega arith; counted = refl }
