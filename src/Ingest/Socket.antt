-- ===== src/Ingest/Socket.antt =====
-- `XdpSocket` and `parse_telemetry_frame` of crates/xdp-ingest/src/main.rs. The flag `running`, which the thread of
-- `main` clears, is the sequence of the values that the loop reads; the clock is the sequence of the times that the
-- rounds read. `none` stands for a panic.
pub mod Loop
pub mod Rounds
use sovereign_edge_tee_agent.Base.{
  ℕ, zero, suc, ◌+◌, ◌/◌, Bytes, Bool, true, false, ltb, if◌then◌else◌, ◌++◌, [], add64, length,
  drop, replicate, Option, none, some, text,
}
use Prim.Native.Nat.{min}
use sovereign_edge_tee_agent.Base.Options.{◌>>=◌}
use sovereign_edge_tee_agent.Common.{TelemetryFrame, default_metadata}
use sovereign_edge_tee_agent.Ingest.Umem.{
  UmemRegion, mul64, slice, new_region, get_frame, get_frame_mut, write_frame,
}

pub record SocketStats : Type 0 where
  pub packets_received : ℕ
  pub bytes_received : ℕ
  pub errors : ℕ

pub record XdpSocket : Type 0 where
  pub iface : Bytes
  pub queue_id : ℕ
  pub umem : UmemRegion
  pub stats : SocketStats

-- `XdpSocket::new`
unfoldable pub new_socket : Bytes → ℕ → ℕ → XdpSocket
new_socket iface queue_id ring_size_kb = record {
  iface = iface;
  queue_id = queue_id;
  umem = new_region 2048 (mul64 ring_size_kb 1024 / 2048);
  stats = record { packets_received = 0; bytes_received = 0; errors = 0 };
}

unfoldable pub parse_telemetry_frame : {F : Type 0} → ℕ → Bytes → ℕ → Option (TelemetryFrame F)
parse_telemetry_frame now bytes frame_id =
    if ltb (length bytes) 20
    then none
    else (some record {
      frame_id = frame_id;
      source_ip = text "0.0.0.0";
      dest_ip = none;
      timestamp_ns = now;
      payload = bytes;
      metadata = default_metadata;
    })

unfoldable pub packet_len : Bytes → ℕ
packet_len frame = min 100 (length frame)

-- `frame[..packet_len].fill(0xAB)`
unfoldable pub fill : Bytes → Bytes
fill frame = replicate (packet_len frame) 171 ++ drop (packet_len frame) frame

abbrev pub count_packet : SocketStats → SocketStats
count_packet stats = record stats {
  packets_received = add64 stats.packets_received 1;
  bytes_received = add64 stats.bytes_received 100;
}

-- The body of the loop when the region has a frame: what was parsed, and the region afterwards.
unfoldable pub receive_packet :
    {F : Type 0} → ℕ → XdpSocket → Option (Option (TelemetryFrame F) × UmemRegion)
receive_packet now s = do
  frame ← get_frame_mut s.umem 0
  let umem = write_frame s.umem 0 (fill frame)
  shared ← get_frame umem 0
  packet ← slice shared 0 (packet_len frame)
  some (parse_telemetry_frame now packet (add64 s.stats.packets_received 1), umem)

unfoldable pub receive_round :
    {F : Type 0} → ℕ → XdpSocket → Option (Option (TelemetryFrame F) × XdpSocket)
receive_round now s =
    if ltb 0 s.umem.frame_count
    then (do
      (telemetry, umem) ← receive_packet now s
      some (telemetry, record s { umem = umem; stats = count_packet s.stats }))
    else some (none, record s { stats = count_packet s.stats })

pub data Run : Type 0 where
  out_of_fuel panicked : Run
  stopped : XdpSocket → Run

-- `receive_loop` from the read of the flag with the number `round` on.
unfoldable pub receive_loop : (F : Type 0) → ℕ → (ℕ → Bool) → (ℕ → ℕ) → ℕ → XdpSocket → Run
receive_loop F zero running now round s = out_of_fuel
receive_loop F (suc fuel) running now round s = elim (running round) [
  | false ↦ stopped s
  | true ↦ elim (receive_round {F = F} (now round) s) [
    | none ↦ panicked
    | some r ↦ receive_loop F fuel running now (suc round) r.1
  ]
]
