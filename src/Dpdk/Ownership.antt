-- ===== src/Dpdk/Ownership.antt =====
-- `ownership_memzone_t` (src/dispatcher_impl/dpdk/dpdk_dispatcher.h): which process owns which queue
-- pair of which port. Each function runs under the mutex; `getpid()` is an argument, and so is the
-- test `kill(pid, 0) == 0`, here `alive`. Counters are 64 bits wide.
pub mod Counter
pub mod Grant
pub mod Crashed
mod Examples
use axio_emulator.Prelude.{
  ℕ, ◌+◌, ◌-◌, ◌%◌, ◌^◌, List, [], ◌∷◌, Bool, true, false, ◌&&◌, ◌||◌, not, Option, none, some,
  length, get_or, set, replicate, ◌==◌, if◌then◌else◌,
}

-- `kMaxPhyPorts`, `kMaxQueuesPerPort`, `kInvalidQpId`.
abbrev pub max_phy_ports : ℕ
max_phy_ports = 2

abbrev pub max_queues_per_port : ℕ
max_queues_per_port = 16

abbrev pub invalid_qp_id : ℕ
invalid_qp_id = 2 ^ 64 - 1

pub record Owner : Type 0 where
  pub pid : ℕ
  pub proc_random_id : ℕ

pub record Memzone : Type 0 where
  pub epoch : ℕ
  pub num_qps_available : ℕ
  pub owner : List (List Owner)

abbrev pub no_owner : Owner
no_owner = record { pid = 0; proc_random_id = 0 }

-- `owner_[phy_port]`.
abbrev pub owners : Memzone → ℕ → List Owner
owners z phy_port = get_or z.owner phy_port []

unfoldable pub init : Memzone
init = record {
  epoch = 0;
  num_qps_available = max_queues_per_port;
  owner = replicate max_phy_ports (replicate max_queues_per_port no_owner);
}

unfoldable pub get_epoch : Memzone → ℕ
get_epoch z = z.epoch

unfoldable pub get_num_qps_available : Memzone → ℕ
get_num_qps_available z = z.num_qps_available

-- The check for sanity: a queue pair of this PID, with another random number.
abbrev pub clashes : ℕ → ℕ → List Owner → Bool
clashes my_pid proc_random_id [] = false
clashes my_pid proc_random_id (o ∷ os) =
    (o.pid == my_pid) && not (o.proc_random_id == proc_random_id)
    || clashes my_pid proc_random_id os

-- The first queue pair that is free.
abbrev pub first_free : List Owner → Option ℕ
first_free [] = none
first_free (o ∷ os) = if o.pid == 0 then some 0 else after (first_free os)
  where
    after : Option ℕ → Option ℕ
    after none = none
    after (some i) = some (i + 1)

take_qp : ℕ → ℕ → ℕ → Memzone → Option ℕ → Memzone × ℕ
take_qp my_pid phy_port proc_random_id z none = (z, invalid_qp_id)
take_qp my_pid phy_port proc_random_id z (some i) = (
  record z {
    num_qps_available = (2 ^ 64 + z.num_qps_available - 1) % 2 ^ 64;
    owner =
        set z.owner phy_port
          (set (owners z phy_port) i (record { pid = my_pid; proc_random_id = proc_random_id }));
  },
  i,
)

unfoldable pub get_qp : ℕ → ℕ → ℕ → Memzone → Memzone × ℕ
unfolding take_qp
get_qp my_pid phy_port proc_random_id z =
    let z' = record z { epoch = (z.epoch + 1) % 2 ^ 64 } in
    if clashes my_pid proc_random_id (owners z phy_port)
    then (z', invalid_qp_id)
    else take_qp my_pid phy_port proc_random_id z' (first_free (owners z phy_port))

-- The results of `free_qp`: 0, EALREADY and EPERM.
pub data FreeResult : Type 0 where
  success ealready eperm : FreeResult

unfoldable pub free_qp : ℕ → ℕ → ℕ → Memzone → Memzone × FreeResult
free_qp my_pid phy_port qp_id z =
    let z' = record z { epoch = (z.epoch + 1) % 2 ^ 64 } in
    let o = get_or (owners z phy_port) qp_id no_owner in
    if o.pid == 0 then (z', ealready) else if not (o.pid == my_pid) then (z', eperm) else (
      record z' {
        num_qps_available = (z.num_qps_available + 1) % 2 ^ 64;
        owner = set z.owner phy_port (set (owners z phy_port) qp_id (record o { pid = 0 }));
      },
      success,
    )

-- The loop over the queue pairs of a port: the owners afterwards and `num_qps_available_`.
abbrev pub reclaim : (ℕ → Bool) → List Owner → ℕ → List Owner × ℕ
reclaim alive [] num = ([], num)
reclaim alive (o ∷ os) num =
    let dead = not (alive o.pid) in
    let (os', num') = reclaim alive os (if dead then (num + 1) % 2 ^ 64 else num) in
    ((if dead then record o { pid = 0 } else o) ∷ os', num')

-- `daemon_reclaim_qps_from_crashed`.
unfoldable pub reclaim_crashed : (ℕ → Bool) → ℕ → Memzone → Memzone
reclaim_crashed alive phy_port z =
    let (os, num) = reclaim alive (owners z phy_port) z.num_qps_available in
    record z { num_qps_available = num; owner = set z.owner phy_port os }
