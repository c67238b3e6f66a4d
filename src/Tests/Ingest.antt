-- ===== src/Tests/Ingest.antt =====
-- A socket with a ring of 4 KB, which is two frames.
use sovereign_edge_tee_agent.Base.{
  ℕ, ◌*◌, ◌%◌, ◌^◌, ◌<◌, ◌≡◌, refl, arith, text, Bool, true, ltb, [], take, drop, length, some,
  none,
}
use sovereign_edge_tee_agent.Ingest.Umem.{UmemRegion, new_region, get_frame, get_frame_mut}
use sovereign_edge_tee_agent.Ingest.Umem.Frames.{IsRegion, new_region-IsRegion, get_frame_lem}
use sovereign_edge_tee_agent.Ingest.Daemon.{Args, shut_down, daemon}
use sovereign_edge_tee_agent.Ingest.Daemon.Report.{daemon_stops}

abbrev region : UmemRegion
region = new_region 4 3

region-IsRegion : IsRegion region
region-IsRegion = new_region-IsRegion 4 3 (omega arith) (omega arith) (omega arith)

small_start : 1 * region.frame_size < 2 ^ 64
unfolding new_region
small_start = omega arith

get_frame_lem_example :
    (1 < region.frame_count
      → (get_frame region 1
          ≡ some (take region.frame_size (drop (1 * region.frame_size) region.buffer)))
        × (get_frame_mut region 1 ≡ get_frame region 1)
        × (length (take region.frame_size (drop (1 * region.frame_size) region.buffer))
            ≡ region.frame_size))
    × (1 ≡ region.frame_count → (get_frame region 1 ≡ some []) × (get_frame_mut region 1 ≡ some []))
    × (region.frame_count < 1 → (get_frame region 1 ≡ none) × (get_frame_mut region 1 ≡ none))
get_frame_lem_example = get_frame_lem region 1 region-IsRegion small_start

-- The flag is cleared before the fourth read.
abbrev flag : ℕ → Bool
flag i = ltb i 3

flag_set : (j : ℕ) → j < 3 → flag j ≡ true
flag_set j h = ground arith

abbrev arguments : Args
arguments = record { iface = text "eth0"; port = 47821; queue_id = 0; ring_size_kb = 4 }

daemon_stops_example :
    daemon ℕ arguments 10 flag (λ i. 7 * i)
    ≡ shut_down
        (record { packets_received = 3 % 2 ^ 64; bytes_received = (100 * 3) % 2 ^ 64; errors = 0 })
daemon_stops_example =
    daemon_stops ℕ arguments 3 10 flag (λ i. 7 * i) (omega arith) flag_set refl (omega arith)
