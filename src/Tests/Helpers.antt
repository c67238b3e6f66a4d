-- ===== src/Tests/Helpers.antt =====
-- A buffer of ten bytes.
use sovereign_edge_tee_agent.Base.{◌+◌, ◌≡◌, refl, arith, Bytes, [], ◌∷◌, length, replicate, some}
use sovereign_edge_tee_agent.Helpers.ZeroCopy.{
  ZeroCopyBuffer, with_capacity, write_slice, write_back, read_slice, advance_write, advance_read,
  write_available, read_available,
}
use sovereign_edge_tee_agent.Helpers.ZeroCopy.Bounds.{
  Reached, starts, calls, writes, advances_write, advances_read, slices_available,
}

abbrev filled : ZeroCopyBuffer
filled = write_back (with_capacity 10) (1 ∷ 2 ∷ 3 ∷ 4 ∷ replicate 6 0)

abbrev halfway : ZeroCopyBuffer
halfway = (advance_read (advance_write filled 4).1 1).1

reads : read_slice halfway ≡ some (2 ∷ 3 ∷ 4 ∷ [])
unfolding read_slice advance_read advance_write write_back with_capacity
reads = refl

writable : write_slice (with_capacity 10) ≡ some (replicate 10 0)
unfolding write_slice with_capacity
writable = refl

Reached-halfway : Reached halfway
Reached-halfway =
    calls
      (calls (calls (starts 10 (omega arith)) (writes (replicate 10 0) _ writable refl))
        (advances_write 4 (omega arith)))
      (advances_read 1 (omega arith))

slices_available_example :
    (readable rest : Bytes) × (read_slice halfway ≡ some readable)
    × (write_slice halfway ≡ some rest)
    × (length readable ≡ read_available halfway)
    × (length rest ≡ write_available halfway)
    × (halfway.read_pos + length readable + length rest ≡ halfway.capacity)
slices_available_example = slices_available Reached-halfway
