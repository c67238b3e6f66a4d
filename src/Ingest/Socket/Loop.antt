-- ===== src/Ingest/Socket/Loop.antt =====
-- The loop of `XdpSocket::receive_loop`, from the socket that `XdpSocket::new` makes.
use sovereign_edge_tee_agent.Base.{
  ℕ, zero, suc, ◌+◌, ◌*◌, ◌/◌, ◌%◌, ◌^◌, ◌<◌, ◌≡◌, refl, ap, ◌∙◌, arith, Bytes, Bool, true, false,
}
use sovereign_edge_tee_agent.Ingest.Umem.{mul64, new_region}
use sovereign_edge_tee_agent.Ingest.Umem.Frames.{new_region-IsRegion}
use sovereign_edge_tee_agent.Ingest.Socket.{
  SocketStats, XdpSocket, new_socket, count_packet, stopped, receive_loop,
}
use sovereign_edge_tee_agent.Ingest.Socket.Rounds.{IsReady, receive_round_lem}

-- What the loop leaves after `k` packets on the counters that it started with.
pub record Received (before : SocketStats) (k : ℕ) (after : XdpSocket) : Type 0 where
  pub packets : after.stats.packets_received ≡ (before.packets_received + k) % 2 ^ 64
  pub bytes : after.stats.bytes_received ≡ (before.bytes_received + 100 * k) % 2 ^ 64
  pub errors : after.stats.errors ≡ before.errors
  pub ready : IsReady after.umem

Received-step :
    (before : SocketStats) (k : ℕ) (stats : SocketStats) (after : XdpSocket)
    → stats ≡ count_packet before
    → Received stats k after
    → Received before (suc k) after
Received-step before k stats after e r =
    let p = ap (λ c. c.packets_received) e in
    let b = ap (λ c. c.bytes_received) e in
    record {
      packets = omega (arith, p, r.packets);
      bytes = omega (arith, b, r.bytes);
      errors = r.errors ∙ ap (λ c. c.errors) e;
      ready = r.ready;
    }

-- What the flag reads at equal positions.
here : (running : ℕ → Bool) (i j : ℕ) {b : Bool} → i ≡ j → running j ≡ b → running i ≡ b
here running i j e h = cc

-- The loop with `k` reads of a set flag ahead, then one of a cleared flag.
receive_loop_from :
    (F : Type 0) (k fuel : ℕ) (running : ℕ → Bool) (now : ℕ → ℕ) (round : ℕ) (s : XdpSocket)
    → k < fuel
    → IsReady s.umem
    → s.stats.packets_received < 2 ^ 64
    → s.stats.bytes_received < 2 ^ 64
    → ((j : ℕ) → j < k → running (round + j) ≡ true)
    → running (round + k) ≡ false
    → (t : XdpSocket) × (receive_loop F fuel running now round s ≡ stopped t) × Received s.stats k t
unfolding receive_loop
receive_loop_from F k zero running now round s l v p b up down = absurd (omega arith)
receive_loop_from F zero (suc fuel) running now round s l v p b up down =
    let last : running round ≡ false = here running round (round + 0) (omega arith) down in
    (
      s,
      rw (last, receive_loop),
      record { packets = omega (arith, p); bytes = omega (arith, b); errors = refl; ready = v },
    )
receive_loop_from F (suc k) (suc fuel) running now round s l v p b up down =
    let first : running round ≡ true =
      here running round (round + 0) (omega arith) (up 0 (omega arith)) in
    let (t, e, ready, count) = receive_round_lem {F = F} (now round) s v in
    let small : t.stats.packets_received < 2 ^ 64 =
      omega (arith, ap (λ c. c.packets_received) count) in
    let small_bytes : t.stats.bytes_received < 2 ^ 64 =
      omega (arith, ap (λ c. c.bytes_received) count) in
    let rest =
      receive_loop_from F k fuel running now (suc round) t (omega arith) ready small small_bytes
        (λ j h.
          here running (suc round + j) (round + suc j) (omega arith)
            (up (suc j) (omega (arith, h))))
        (here running (suc round + k) (round + suc k) (omega arith) down) in
    (
      rest.0,
      (rw (first, e, receive_loop)) ∙ rest.1,
      Received-step s.stats k t.stats rest.0 count rest.2,
    )

new_socket-IsReady :
    (iface : Bytes) (queue_id ring_size_kb : ℕ)
    → ring_size_kb * 1024 < 2 ^ 63
    → IsReady (new_socket iface queue_id ring_size_kb).umem
unfolding new_socket new_region
new_socket-IsReady iface queue_id ring_size_kb h = record {
  region =
      new_region-IsRegion 2048 (mul64 ring_size_kb 1024 / 2048) (omega arith) (omega arith)
        (omega (arith, h));
  holds = omega arith;
}

-- For a socket with a ring of less than 2^63 bytes: when the flag is set at the first `k` reads and cleared at the
-- next one, the loop stops there without a panic, with any fuel above `k`, and its counters are `k` packets and
-- 100 * k bytes, both modulo 2^64, and no errors.
pub receive_loop_stops :
    (F : Type 0) (iface : Bytes) (queue_id ring_size_kb k fuel : ℕ) (running : ℕ → Bool)
    (now : ℕ → ℕ)
    → ring_size_kb * 1024 < 2 ^ 63
    → ((j : ℕ) → j < k → running j ≡ true)
    → running k ≡ false
    → k < fuel
    → (t : XdpSocket) × (receive_loop F fuel running now 0 (new_socket iface queue_id ring_size_kb)
        ≡ stopped t)
      × (t.stats.packets_received ≡ k % 2 ^ 64)
      × (t.stats.bytes_received ≡ (100 * k) % 2 ^ 64)
      × (t.stats.errors ≡ 0)
unfolding new_socket
receive_loop_stops F iface queue_id ring_size_kb k fuel running now h up down l =
    let s = new_socket iface queue_id ring_size_kb in
    let (t, e, r) =
      receive_loop_from F k fuel running now 0 s l
        (new_socket-IsReady iface queue_id ring_size_kb h) (omega arith) (omega arith)
        (λ j m. here running (0 + j) j (omega arith) (up j m))
        (here running (0 + k) k (omega arith) down) in
    (t, e, omega (arith, r.packets), omega (arith, r.bytes), r.errors)
