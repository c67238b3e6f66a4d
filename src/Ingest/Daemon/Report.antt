-- ===== src/Ingest/Daemon/Report.antt =====
-- What the daemon prints when it is stopped.
use sovereign_edge_tee_agent.Base.{ℕ, ◌*◌, ◌%◌, ◌^◌, ◌<◌, ◌≡◌, ap, ◌∙◌, Bool, true, false}
use sovereign_edge_tee_agent.Ingest.Socket.Loop.{receive_loop_stops}
use sovereign_edge_tee_agent.Ingest.Daemon.{Args, shut_down, report, daemon}

-- For a ring of less than 2^63 bytes: when the loop finds the flag set at its first `k` reads and cleared at the next
-- one, the daemon shuts down cleanly, with any fuel above `k`; no round panics, and the statistics that it prints are
-- `k` packets and 100 * k bytes, both modulo 2^64, and no errors.
pub daemon_stops :
    (F : Type 0) (args : Args) (k fuel : ℕ) (running : ℕ → Bool) (now : ℕ → ℕ)
    → args.ring_size_kb * 1024 < 2 ^ 63
    → ((j : ℕ) → j < k → running j ≡ true)
    → running k ≡ false
    → k < fuel
    → daemon F args fuel running now
      ≡ shut_down (record {
        packets_received = k % 2 ^ 64;
        bytes_received = (100 * k) % 2 ^ 64;
        errors = 0;
      })
unfolding daemon report
daemon_stops F args k fuel running now h up down l =
    let (t, e, packets, bytes, errors) =
      receive_loop_stops F args.iface args.queue_id args.ring_size_kb k fuel running now h up down
        l in
    ap report e ∙ cc (packets, bytes, errors)
