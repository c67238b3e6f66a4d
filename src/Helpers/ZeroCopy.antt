-- ===== src/Helpers/ZeroCopy.antt =====
-- `ZeroCopyBuffer` of crates/helpers/src/lib.rs. A mutable slice is written back by `write_back`; `none`
-- stands for the panic of a slice out of range.
pub mod Bounds
use sovereign_edge_tee_agent.Base.{
  ℕ, ◌-◌, ◌^◌, ◌+◌, Bytes, text, Bool, leb, ltb, ◌&&◌, if◌then◌else◌, ◌++◌, add64, length, take,
  drop, replicate, Option, none, some,
}
use sovereign_edge_tee_agent.Base.Fallible.{Fallible, ok, err}

pub data HelperError : Type 0 where
  invalid_config buffer_error metrics_error : Bytes → HelperError

pub record ZeroCopyBuffer : Type 0 where
  pub data_bytes : Bytes
  pub capacity : ℕ
  pub read_pos : ℕ
  pub write_pos : ℕ

unfoldable pub with_capacity : ℕ → ZeroCopyBuffer
with_capacity capacity = record {
  data_bytes = replicate capacity 0;
  capacity = capacity;
  read_pos = 0;
  write_pos = 0;
}

-- `write_slice`, and the buffer after the slice was overwritten by as many bytes.
unfoldable pub write_slice : ZeroCopyBuffer → Option Bytes
write_slice b =
    if leb b.write_pos (length b.data_bytes) then some (drop b.write_pos b.data_bytes) else none

unfoldable pub write_back : ZeroCopyBuffer → Bytes → ZeroCopyBuffer
write_back b bytes = record b { data_bytes = take b.write_pos b.data_bytes ++ bytes }

unfoldable pub read_slice : ZeroCopyBuffer → Option Bytes
read_slice b =
    if leb b.read_pos b.write_pos && leb b.write_pos (length b.data_bytes)
    then some (take (b.write_pos - b.read_pos) (drop b.read_pos b.data_bytes))
    else none

unfoldable pub advance_write : ZeroCopyBuffer → ℕ → Fallible HelperError (Unit {0}) × ZeroCopyBuffer
advance_write b count =
    if ltb b.capacity (add64 b.write_pos count)
    then (err (buffer_error (text "Write would exceed buffer capacity")), b)
    else (ok tt, record b { write_pos = add64 b.write_pos count })

unfoldable pub advance_read : ZeroCopyBuffer → ℕ → Fallible HelperError (Unit {0}) × ZeroCopyBuffer
advance_read b count =
    if ltb b.write_pos (add64 b.read_pos count)
    then (err (buffer_error (text "Read would exceed written data")), b)
    else (ok tt, record b { read_pos = add64 b.read_pos count })

unfoldable pub reset : ZeroCopyBuffer → ZeroCopyBuffer
reset b = record b { read_pos = 0; write_pos = 0 }

-- The differences wrap.
unfoldable pub write_available : ZeroCopyBuffer → ℕ
write_available b = add64 b.capacity (2 ^ 64 - b.write_pos)

unfoldable pub read_available : ZeroCopyBuffer → ℕ
read_available b = add64 b.write_pos (2 ^ 64 - b.read_pos)
