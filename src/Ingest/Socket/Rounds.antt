-- ===== src/Ingest/Socket/Rounds.antt =====
-- One round of `XdpSocket::receive_loop` on a region whose frames hold a packet.
use sovereign_edge_tee_agent.Base.{
  ℕ, zero, suc, ◌-◌, ◌*◌, ◌≤◌, ◌<◌, ◌≡◌, refl, ap, ◌∙◌, inl, inr, arith, Bytes, ltb, ltb→lt,
  if◌then◌else◌, ◌++◌, [], ◌∷◌, add64, length, length-append, length-replicate, length-take, take,
  drop, replicate, none, some, text, Bool-cases, append_assoc,
}
use Prim.Native.Nat.{min}
use sovereign_edge_tee_agent.Common.{TelemetryFrame, default_metadata}
use sovereign_edge_tee_agent.Ingest.Umem.{
  UmemRegion, mul64, slice, get_frame, mut_end, get_frame_mut, write_frame,
}
use sovereign_edge_tee_agent.Ingest.Umem.Frames.{
  IsRegion, length-drop, slice_in, next_within, get_frame_lem,
}
use sovereign_edge_tee_agent.Ingest.Socket.{
  XdpSocket, parse_telemetry_frame, packet_len, fill, count_packet, receive_packet, receive_round,
}

take-take : (m n : ℕ) (bs : Bytes) → m ≤ n → take m (take n bs) ≡ take m bs
take-take zero n bs h = refl
take-take (suc m) zero bs h = absurd (omega arith)
take-take (suc m) (suc n) [] h = refl
take-take (suc m) (suc n) (b ∷ bs) h = ap (λ l. b ∷ l) (take-take m n bs (omega arith))

take-replicate_append : (n : ℕ) (b : ℕ) (bs : Bytes) → take n (replicate n b ++ bs) ≡ replicate n b
take-replicate_append zero b bs = refl
take-replicate_append (suc n) b bs = ap (λ l. b ∷ l) (take-replicate_append n b bs)

-- A region whose frames hold a packet of 100 bytes.
pub record IsReady (u : UmemRegion) : Type 0 where
  pub region : IsRegion u
  pub holds : 100 ≤ u.frame_size

first_start : (s : ℕ) → mul64 0 s ≡ 0
first_start s = omega arith

length-fill : (frame : Bytes) → length (fill frame) ≡ length frame
unfolding fill packet_len
length-fill frame = omega (
  arith,
  length-append (replicate (packet_len frame) 171) (drop (packet_len frame) frame),
  length-replicate {A = ℕ} (packet_len frame) 171,
  length-drop (packet_len frame) frame,
)

-- The buffer after the first frame was overwritten.
first_written :
    (u : UmemRegion) (bytes : Bytes)
    → (write_frame u 0 bytes).buffer ≡ bytes ++ drop (mut_end u 0) u.buffer
unfolding write_frame
first_written u bytes = rw (first_start u.frame_size)

first-IsReady :
    (u : UmemRegion) (bytes : Bytes)
    → IsReady u
    → length bytes ≡ min u.frame_size (length u.buffer)
    → IsReady (write_frame u 0 bytes)
unfolding write_frame
first-IsReady u bytes v h =
    let kept : length (write_frame u 0 bytes).buffer ≡ length u.buffer =
      ap length (first_written u bytes)
      ∙ omega (
        arith,
        length-append bytes (drop (mut_end u 0) u.buffer),
        length-drop (mut_end u 0) u.buffer,
        h,
        v.region.small,
        v.region.frame,
      ) in
    record {
      region = record {
        sized = kept ∙ v.region.sized;
        small = omega (arith, kept, v.region.small);
        filled = v.region.filled;
        frame = v.region.frame;
      };
      holds = v.holds;
    }

-- The 100 bytes of the simulated packet.
unfoldable pub packet_bytes : Bytes
packet_bytes = replicate 100 171

-- The telemetry frame that a round parses from the simulated packet.
abbrev pub simulated : {F : Type 0} → ℕ → ℕ → TelemetryFrame F
simulated now frame_id = record {
  frame_id = frame_id;
  source_ip = text "0.0.0.0";
  dest_ip = none;
  timestamp_ns = now;
  payload = packet_bytes;
  metadata = default_metadata;
}

parse_simulated :
    {F : Type 0} (now : ℕ) (frame_id : ℕ)
    → parse_telemetry_frame {F = F} now packet_bytes frame_id ≡ some (simulated now frame_id)
unfolding parse_telemetry_frame packet_bytes
parse_simulated now frame_id = refl

steps :
    {F : Type 0} (now : ℕ) (s : XdpSocket) (frame shared packet : Bytes)
    → get_frame_mut s.umem 0 ≡ some frame
    → get_frame (write_frame s.umem 0 (fill frame)) 0 ≡ some shared
    → slice shared 0 (packet_len frame) ≡ some packet
    → receive_packet {F = F} now s
      ≡ some (
        parse_telemetry_frame now packet (add64 s.stats.packets_received 1),
        write_frame s.umem 0 (fill frame),
      )
unfolding receive_packet
steps now s frame shared packet e f g = rw (e, f, g)

take_filled :
    (frame rest : Bytes) (size : ℕ)
    → 100 ≤ length frame
    → 100 ≤ size
    → take (packet_len frame - 0) (take size (fill frame ++ rest)) ≡ packet_bytes
unfolding fill packet_len packet_bytes
take_filled frame rest size h k =
    let n = min 100 (length frame) in
    let tail = drop n frame ++ rest in
    let all : n - 0 ≡ n = omega arith in
    let hundred : n ≡ 100 = omega arith in
    ap (λ m. take m (take size (fill frame ++ rest))) all
    ∙ take-take n size (fill frame ++ rest) (omega arith)
    ∙ ap (take n) (append_assoc (replicate n 171) (drop n frame) rest)
    ∙ take-replicate_append n 171 tail
    ∙ ap (λ m. replicate m 171) hundred

shared_frame :
    (u : UmemRegion) (frame : Bytes)
    → take u.frame_size (drop (0 * u.frame_size) (write_frame u 0 (fill frame)).buffer)
      ≡ take u.frame_size (fill frame ++ drop (mut_end u 0) u.buffer)
shared_frame u frame =
    let start : 0 * u.frame_size ≡ 0 = omega arith in
    ap (λ n. take u.frame_size (drop n (write_frame u 0 (fill frame)).buffer)) start
    ∙ ap (take u.frame_size) (first_written u (fill frame))

slice_filled :
    (frame rest : Bytes) (size : ℕ)
    → 100 ≤ length frame
    → 100 ≤ size
    → slice (take size (fill frame ++ rest)) 0 (packet_len frame) ≡ some packet_bytes
unfolding packet_len
slice_filled frame rest size h k =
    let shared = take size (fill frame ++ rest) in
    let within : packet_len frame ≤ length shared = omega (
      arith,
      length-take size (fill frame ++ rest),
      length-append (fill frame) rest,
      length-fill frame,
    ) in
    slice_in shared 0 (packet_len frame) (omega arith) within
    ∙ ap some (take_filled frame rest size h k)

receive_packet_lem :
    {F : Type 0} (now : ℕ) (s : XdpSocket)
    → IsReady s.umem
    → 0 < s.umem.frame_count
    → (u : UmemRegion) × (receive_packet {F = F} now s
        ≡ some (some (simulated now (add64 s.stats.packets_received 1)), u))
      × IsReady u
      × (u.frame_count ≡ s.umem.frame_count)
unfolding write_frame
receive_packet_lem {F} now s v h =
    let inside = (get_frame_lem s.umem 0 v.region (omega arith)).0 h in
    let frame = take s.umem.frame_size (drop (0 * s.umem.frame_size) s.umem.buffer) in
    let sized : length frame ≡ s.umem.frame_size = inside.2 in
    let u = write_frame s.umem 0 (fill frame) in
    let fits = next_within 0 s.umem.frame_count s.umem.frame_size h in
    let full : length (fill frame) ≡ min s.umem.frame_size (length s.umem.buffer) =
      omega (arith, length-fill frame, sized, fits, v.region.sized) in
    let ready : IsReady u = first-IsReady s.umem (fill frame) v full in
    let again = (get_frame_lem u 0 ready.region (omega arith)).0 h in
    let rest = drop (mut_end s.umem 0) s.umem.buffer in
    let shared = take u.frame_size (fill frame ++ rest) in
    let long : 100 ≤ length frame = omega (arith, sized, v.holds) in
    let e : receive_packet {F = F} now s
        ≡ some (parse_telemetry_frame now packet_bytes (add64 s.stats.packets_received 1), u) =
      steps now s frame shared packet_bytes (inside.1 ∙ inside.0)
        (again.0 ∙ ap some (shared_frame s.umem frame))
        (slice_filled frame rest s.umem.frame_size long v.holds) in
    (
      u,
      e ∙ ap (λ t. some (t, u)) (parse_simulated now (add64 s.stats.packets_received 1)),
      ready,
      refl,
    )

-- A round never panics. It counts one packet of 100 bytes, and with a frame in the region it parses the packet that
-- it wrote there, under the packet's number.
pub receive_round_lem :
    {F : Type 0} (now : ℕ) (s : XdpSocket)
    → IsReady s.umem
    → (t : XdpSocket) × (receive_round {F = F} now s
        ≡ some (
          (if ltb 0 s.umem.frame_count
              then some (simulated now (add64 s.stats.packets_received 1))
              else none),
          t,
        ))
      × IsReady t.umem
      × (t.stats ≡ count_packet s.stats)
unfolding receive_round
receive_round_lem {F} now s v = elim (Bool-cases (ltb 0 s.umem.frame_count)) [
  | inl e ↦
      let r = receive_packet_lem {F = F} now s v (ltb→lt 0 s.umem.frame_count e) in
      (record s { umem = r.0; stats = count_packet s.stats }, rw (e, r.1), r.2, refl)
  | inr e ↦ (record s { stats = count_packet s.stats }, rw e, v, refl)
]
