-- ===== src/Dpdk/Ownership/Examples.antt =====
-- A process takes a queue pair of port 1 and gives it back.
use axio_emulator.Prelude.{ℕ, ◌≡◌, refl, replicate, arith}
use axio_emulator.Dpdk.Ownership.{success, init, get_qp, free_qp}
use axio_emulator.Dpdk.Ownership.Counter.{IsMemzone, init-IsMemzone}
use axio_emulator.Dpdk.Ownership.Grant.{Freed, free_qp-Freed, free_qp-get_qp, owner_at}

free_qp_example : let (out, ret) = free_qp 42 1 0 init in IsMemzone out × Freed 42 1 0 init out ret
free_qp_example = free_qp-Freed 42 1 0 init init-IsMemzone (omega arith) (omega arith)

first_granted : (get_qp 42 1 33 init).1 ≡ 0
unfolding init get_qp replicate
first_granted = refl

free_qp-get_qp_example :
    let (mid, i) = get_qp 42 1 33 init in
    let (out, ret) = free_qp 42 1 i mid in
    (ret ≡ success)
    × (out.num_qps_available ≡ init.num_qps_available)
    × ((j : ℕ) → (owner_at out 1 j).pid ≡ (owner_at init 1 j).pid)
free_qp-get_qp_example =
    free_qp-get_qp 42 1 33 init init-IsMemzone (omega arith) (omega arith)
      (omega (arith, first_granted))
