-- ===== src/Ingest/Daemon.antt =====
-- `main` of crates/xdp-ingest/src/main.rs, from parsed arguments. The task that runs the loop reads the flag, which
-- `main` clears after the signal; `main` then waits for the task and prints what it returns.
pub mod Report
use sovereign_edge_tee_agent.Base.{ℕ, Bytes, Bool}
use sovereign_edge_tee_agent.Ingest.Socket.{
  SocketStats, new_socket, Run, out_of_fuel, panicked, stopped, receive_loop,
}

-- `Args`; the port is only printed.
pub record Args : Type 0 where
  pub iface : Bytes
  pub port : ℕ
  pub queue_id : ℕ
  pub ring_size_kb : ℕ

-- What is printed: the statistics of a clean end, or the error of the task. The loop returns no other error.
pub data Printed : Type 0 where
  waiting task_failed : Printed
  shut_down : SocketStats → Printed

unfoldable pub report : Run → Printed
report out_of_fuel = waiting
report panicked = task_failed
report (stopped s) = shut_down s.stats

-- The values that the loop reads from the flag and the clock, and the fuel of the loop.
unfoldable pub daemon : (F : Type 0) → Args → ℕ → (ℕ → Bool) → (ℕ → ℕ) → Printed
daemon F args fuel running now =
    report
      (receive_loop F fuel running now 0 (new_socket args.iface args.queue_id args.ring_size_kb))
