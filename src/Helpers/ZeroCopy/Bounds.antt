-- ===== src/Helpers/ZeroCopy/Bounds.antt =====
-- The positions of a buffer through any sequence of calls, and where a count wraps.
use sovereign_edge_tee_agent.Base.{
  ℕ, ◌+◌, ◌-◌, ◌^◌, ◌≤◌, ◌<◌, ◌≡◌, refl, arith, Bytes, zero, suc, [], ◌∷◌, length, length-append,
  length-replicate, take, drop, some,
}
use sovereign_edge_tee_agent.Base.Fallible.{ok}
use sovereign_edge_tee_agent.Helpers.ZeroCopy.{
  ZeroCopyBuffer, with_capacity, write_slice, write_back, read_slice, advance_write, advance_read,
  reset, write_available, read_available,
}

-- A call that changes the buffer, with counts below 2^63; a slice keeps its length.
pub data Call (b : ZeroCopyBuffer) : ZeroCopyBuffer → Type 0 where
  writes :
      (slice bytes : Bytes)
      → write_slice b ≡ some slice
      → length bytes ≡ length slice
      → Call b (write_back b bytes)
  advances_write : (count : ℕ) → count < 2 ^ 63 → Call b (advance_write b count).1
  advances_read : (count : ℕ) → count < 2 ^ 63 → Call b (advance_read b count).1
  resets : Call b (reset b)

pub data Reached : ZeroCopyBuffer → Type 0 where
  starts : (capacity : ℕ) → capacity < 2 ^ 63 → Reached (with_capacity capacity)
  calls : {b c : ZeroCopyBuffer} → Reached b → Call b c → Reached c

pub record IsBounded (b : ZeroCopyBuffer) : Type 0 where
  pub read : b.read_pos ≤ b.write_pos
  pub written : b.write_pos ≤ b.capacity
  pub sized : length b.data_bytes ≡ b.capacity
  pub small : b.capacity < 2 ^ 63

length-take : (n : ℕ) (bs : Bytes) → n ≤ length bs → length (take n bs) ≡ n
length-take zero bs h = refl
length-take (suc n) [] h = absurd (omega arith)
length-take (suc n) (b ∷ bs) h = omega (arith, length-take n bs (omega arith))

length-drop : (n : ℕ) (bs : Bytes) → n ≤ length bs → length (drop n bs) + n ≡ length bs
length-drop zero bs h = omega arith
length-drop (suc n) [] h = absurd (omega arith)
length-drop (suc n) (b ∷ bs) h = omega (arith, length-drop n bs (omega arith))

write_back-IsBounded :
    (b : ZeroCopyBuffer) (slice bytes : Bytes)
    → write_slice b ≡ some slice
    → length bytes ≡ length slice
    → IsBounded b
    → IsBounded (write_back b bytes)
unfolding write_slice write_back
write_back-IsBounded b slice bytes e l i =
    let kept = length-take b.write_pos b.data_bytes (omega (arith, i.sized, i.written)) in
    let rest = length-drop b.write_pos b.data_bytes (omega (arith, i.sized, i.written)) in
    record {
      read = i.read;
      written = i.written;
      sized =
          ground (arith, kept, rest, i.sized, length-append (take b.write_pos b.data_bytes) bytes);
      small = i.small;
    }

Call-IsBounded : {b c : ZeroCopyBuffer} → Call b c → IsBounded b → IsBounded c
unfolding advance_write advance_read reset
Call-IsBounded {b} (writes slice bytes e l) i = write_back-IsBounded b slice bytes e l i
Call-IsBounded (advances_write count h) i = ground arith
Call-IsBounded (advances_read count h) i = ground arith
Call-IsBounded resets i = record {
  read = omega arith;
  written = omega arith;
  sized = i.sized;
  small = i.small;
}

pub Reached-IsBounded : {b : ZeroCopyBuffer} → Reached b → IsBounded b
unfolding with_capacity
Reached-IsBounded (starts capacity h) = record {
  read = omega arith;
  written = omega arith;
  sized = length-replicate capacity 0;
  small = h;
}
Reached-IsBounded (calls r c) = Call-IsBounded c (Reached-IsBounded r)

-- For a buffer of less than 2^63 bytes and counts below 2^63, after any calls: the readable slice is never out
-- of range and as long as `read_available` says, neither is the writable slice, as long as
-- `write_available` says, and together with the bytes already read they make up the capacity.
pub slices_available :
    {b : ZeroCopyBuffer}
    → Reached b
    → (readable writable : Bytes) × (read_slice b ≡ some readable)
      × (write_slice b ≡ some writable)
      × (length readable ≡ read_available b)
      × (length writable ≡ write_available b)
      × (b.read_pos + length readable + length writable ≡ b.capacity)
unfolding read_slice write_slice read_available write_available
slices_available {b} r =
    let i = Reached-IsBounded r in
    let unread = length-drop b.read_pos b.data_bytes (omega (arith, i.sized, i.written, i.read)) in
    let free = length-drop b.write_pos b.data_bytes (omega (arith, i.sized, i.written)) in
    let readable =
      length-take (b.write_pos - b.read_pos) (drop b.read_pos b.data_bytes)
        (omega (arith, unread, i.sized, i.written, i.read)) in
    (
      take (b.write_pos - b.read_pos) (drop b.read_pos b.data_bytes),
      drop b.write_pos b.data_bytes,
      ground (arith, i.read, i.written, i.sized),
      ground (arith, i.written, i.sized),
      omega (arith, readable, i.read, i.written, i.small),
      omega (arith, free, i.sized, i.written, i.small),
      omega (arith, readable, free, i.sized, i.read, i.written),
    )

-- In a release build a count close to 2^64 wraps: from a bounded buffer, advancing the write position by
-- 2^64 - k, for k from 1 to that position, succeeds and moves it back by k.
pub advance_write_wraps :
    (b : ZeroCopyBuffer) (k : ℕ)
    → IsBounded b
    → 1 ≤ k
    → k ≤ b.write_pos
    → ((advance_write b (2 ^ 64 - k)).0 ≡ ok tt)
      × ((advance_write b (2 ^ 64 - k)).1.write_pos + k ≡ b.write_pos)
unfolding advance_write
advance_write_wraps b k i p h = ground (arith, i.written, i.small)
