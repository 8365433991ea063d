-- ===== src/Stats/Examples.antt =====
-- Three durations, and an mbuf that comes again after two others.
use axio_emulator.Prelude.{◌+◌, ◌%◌, ◌^◌, ◌≡◌, refl, [], ◌∷◌, arith}
use axio_emulator.Stats.{init, no_durations, app_tx_duration, add_duration}
use axio_emulator.Stats.Extremes.{record_all}
use axio_emulator.Stats.Reuse.{trace_all, trace_all-again}

shortest : (record_all (7 ∷ 3 ∷ 9 ∷ []) init).app_tx.min_duration ≡ 3
unfolding record_all init no_durations app_tx_duration add_duration
shortest = refl

init-trace : init.app_tx_mbuf_trace_addr ≡ 0
unfolding init
init-trace = refl

init-tmp : init.app_tx_mbuf_reuse_tmp_interval ≡ 0
unfolding init
init-tmp = refl

trace_all_example :
    let out = trace_all (5 ∷ 6 ∷ 7 ∷ 5 ∷ []) init in
    (out.app_tx_mbuf_reuse_interval ≡ (init.app_tx_mbuf_reuse_interval + 2) % 2 ^ 64)
    × (out.app_tx_nb_traced_mbuf ≡ (init.app_tx_nb_traced_mbuf + 1) % 2 ^ 64)
    × (out.app_tx_mbuf_trace_addr ≡ 0)
trace_all_example = trace_all-again 5 (6 ∷ 7 ∷ []) init (omega arith) refl init-trace init-tmp
