-- ===== src/Stats/Reuse.antt =====
-- The interval between two uses of an mbuf.
use axio_emulator.Prelude.{
  ℕ, ◌+◌, ◌%◌, ◌^◌, ◌≡◌, ◌≢◌, refl, sym, ap, ◌∙◌, List, [], ◌∷◌, ◌++◌, length, count, arith,
}
use axio_emulator.Stats.{NetStats, mbuf_reuse_interval}

-- The mbufs that are sent, one after the other.
unfoldable pub trace_all : List ℕ → NetStats → NetStats
trace_all [] s = s
trace_all (p ∷ ps) s = trace_all ps (mbuf_reuse_interval p s)

-- While the mbuf that is followed does not come, the others are counted.
record Followed (ps : List ℕ) (s out : NetStats) : Type 0 where
  trace : out.app_tx_mbuf_trace_addr ≡ s.app_tx_mbuf_trace_addr
  tmp :
      out.app_tx_mbuf_reuse_tmp_interval % 2 ^ 64
      ≡ (s.app_tx_mbuf_reuse_tmp_interval + length ps) % 2 ^ 64
  interval : out.app_tx_mbuf_reuse_interval ≡ s.app_tx_mbuf_reuse_interval
  traced : out.app_tx_nb_traced_mbuf ≡ s.app_tx_nb_traced_mbuf

trace_all-Followed :
    (ps : List ℕ) (s : NetStats)
    → s.app_tx_mbuf_trace_addr ≢ 0
    → count s.app_tx_mbuf_trace_addr ps ≡ 0
    → Followed ps s (trace_all ps s)
unfolding trace_all mbuf_reuse_interval
trace_all-Followed [] s ne e = record {
  trace = refl;
  tmp = omega arith;
  interval = refl;
  traced = refl;
}
trace_all-Followed (p ∷ ps) s ne e =
    let r =
      trace_all-Followed ps
        (record s {
          app_tx_mbuf_reuse_tmp_interval = (s.app_tx_mbuf_reuse_tmp_interval + 1) % 2 ^ 64;
        })
        ne (ground (arith, e)) in
    let at : mbuf_reuse_interval p s ≡ record s {
      app_tx_mbuf_reuse_tmp_interval = (s.app_tx_mbuf_reuse_tmp_interval + 1) % 2 ^ 64;
    } =
      ground (arith, ne, e) in
    rw at (record {
      trace = r.trace;
      tmp = omega (arith, r.tmp);
      interval = r.interval;
      traced = r.traced;
    })

trace_all-append :
    (ps qs : List ℕ) (s : NetStats) → trace_all (ps ++ qs) s ≡ trace_all qs (trace_all ps s)
unfolding trace_all
trace_all-append [] qs s = refl
trace_all-append (p ∷ ps) qs s = trace_all-append ps qs (mbuf_reuse_interval p s)

-- From the start of a measurement, an mbuf that comes again after other mbufs, and not before, adds
-- the number of the others to the interval, modulo 2^64; one mbuf was followed, and the next one
-- sent will be.
pub trace_all-again :
    (a : ℕ) (ps : List ℕ) (s : NetStats)
    → a ≢ 0
    → count a ps ≡ 0
    → s.app_tx_mbuf_trace_addr ≡ 0
    → s.app_tx_mbuf_reuse_tmp_interval ≡ 0
    → let out = trace_all (a ∷ ps ++ (a ∷ [])) s in
      (out.app_tx_mbuf_reuse_interval ≡ (s.app_tx_mbuf_reuse_interval + length ps) % 2 ^ 64)
      × (out.app_tx_nb_traced_mbuf ≡ (s.app_tx_nb_traced_mbuf + 1) % 2 ^ 64)
      × (out.app_tx_mbuf_trace_addr ≡ 0)
unfolding trace_all mbuf_reuse_interval
trace_all-again a ps s ne e none_yet fresh =
    let first = mbuf_reuse_interval a s in
    let followed : first.app_tx_mbuf_trace_addr ≡ a = ground (arith, none_yet) in
    let r =
      trace_all-Followed ps first (λ z. ne (sym followed ∙ z))
        (ap (λ x. count x ps) followed ∙ e) in
    let split = trace_all-append ps (a ∷ []) first in
    let here = r.trace ∙ followed in
    let tmp : first.app_tx_mbuf_reuse_tmp_interval ≡ 0 = ground (arith, fresh) in
    let sum : first.app_tx_mbuf_reuse_interval ≡ s.app_tx_mbuf_reuse_interval = ground arith in
    let num : first.app_tx_nb_traced_mbuf ≡ (s.app_tx_nb_traced_mbuf + 1) % 2 ^ 64 =
      ground (arith, none_yet) in
    let total = r.tmp in
    let kept = r.interval in
    let traced = r.traced in
    rw (split, trace_all)
      (
        ground (arith, here, ne, tmp, sum, total, kept),
        ground (arith, here, ne, num, traced),
        ground (arith, here, ne),
      )
