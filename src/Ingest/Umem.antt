-- ===== src/Ingest/Umem.antt =====
-- `UmemRegion` of crates/xdp-ingest/src/main.rs. `none` stands for the panic of a slice out of range; sums,
-- differences and products of `usize` wrap as in a release build.
pub mod Frames
use sovereign_edge_tee_agent.Base.{
  ℕ, ◌+◌, ◌-◌, ◌*◌, ◌%◌, ◌^◌, Bytes, Bool, leb, ◌&&◌, if◌then◌else◌, ◌++◌, add64, length, take,
  drop, replicate, Option, none, some, List,
}
use Prim.Native.Nat.{min}

pub record UmemRegion : Type 0 where
  pub frame_size : ℕ
  pub frame_count : ℕ
  pub buffer : Bytes

abbrev pub mul64 : ℕ → ℕ → ℕ
mul64 a b = (a * b) % 2 ^ 64

-- `&s[start..end]`
unfoldable pub slice : Bytes → ℕ → ℕ → Option Bytes
slice s start end =
    if leb start end && leb end (length s) then some (take (end - start) (drop start s)) else none

unfoldable pub new_region : ℕ → ℕ → UmemRegion
new_region frame_size frame_count = record {
  frame_size = frame_size;
  frame_count = frame_count;
  buffer = replicate (mul64 frame_size frame_count) 0;
}

unfoldable pub get_frame : UmemRegion → ℕ → Option Bytes
get_frame u frame_idx =
    let start = mul64 frame_idx u.frame_size in
    let left = add64 (length u.buffer) (2 ^ 64 - start) in
    slice u.buffer start (add64 start (min u.frame_size left))

abbrev pub mut_end : UmemRegion → ℕ → ℕ
mut_end u start = min (add64 start u.frame_size) (length u.buffer)

unfoldable pub get_frame_mut : UmemRegion → ℕ → Option Bytes
get_frame_mut u frame_idx =
    let start = mul64 frame_idx u.frame_size in slice u.buffer start (mut_end u start)

-- The region after the mutable slice was overwritten by as many bytes.
unfoldable pub write_frame : UmemRegion → ℕ → Bytes → UmemRegion
write_frame u frame_idx bytes =
    let start = mul64 frame_idx u.frame_size in
    record u { buffer = take start u.buffer ++ (bytes ++ drop (mut_end u start) u.buffer) }
