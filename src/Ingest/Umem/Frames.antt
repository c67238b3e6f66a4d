-- ===== src/Ingest/Umem/Frames.antt =====
-- Which frames a region has: both accessors give the same slice, and panic at the same indices.
use sovereign_edge_tee_agent.Base.{
  ℕ, zero, suc, ◌+◌, ◌-◌, ◌*◌, ◌^◌, ◌≤◌, ◌<◌, ◌≡◌, refl, sym, ap, ◌∙◌, ◌⊎◌, inl, arith, Bytes, [],
  ◌∷◌, add64, length, length-replicate, length-take, take, drop, none, some,
}
use Prim.Native.Nat.{min}
use native.Mathlib.Nat.{mul_comm}
use sovereign_edge_tee_agent.Ingest.Umem.{
  UmemRegion, mul64, slice, new_region, get_frame, mut_end, get_frame_mut,
}

-- The buffer is the frames, which are not empty; it and a frame are less than 2^63 bytes.
pub record IsRegion (u : UmemRegion) : Type 0 where
  pub sized : length u.buffer ≡ u.frame_count * u.frame_size
  pub small : length u.buffer < 2 ^ 63
  pub filled : 1 ≤ u.frame_size
  pub frame : u.frame_size < 2 ^ 63

pub new_region-IsRegion :
    (frame_size frame_count : ℕ)
    → 1 ≤ frame_size
    → frame_size < 2 ^ 63
    → frame_count * frame_size < 2 ^ 63
    → IsRegion (new_region frame_size frame_count)
unfolding new_region
new_region-IsRegion s n h f k =
    let commuted = mul_comm n s in
    let sized = length-replicate {A = ℕ} (mul64 s n) 0 in
    record {
      sized = omega (arith, commuted, sized);
      small = omega (arith, commuted, sized);
      filled = h;
      frame = f;
    }

pub length-drop : (n : ℕ) (bs : Bytes) → length (drop n bs) ≡ length bs - n
length-drop zero bs = omega arith
length-drop (suc n) [] = omega arith
length-drop (suc n) (b ∷ bs) = omega (arith, length-drop n bs)

pub slice_in :
    (s : Bytes) (start end : ℕ)
    → start ≤ end
    → end ≤ length s
    → slice s start end ≡ some (take (end - start) (drop start s))
unfolding slice
slice_in s start end h k = ground arith

slice_out :
    (s : Bytes) (start end : ℕ) → (end < start) ⊎ (length s < end) → slice s start end ≡ none
unfolding slice
slice_out s start end h = ground arith

pub next_within : (i n s : ℕ) → i < n → i * s + s ≤ n * s
next_within i n s h = grind arith

-- The end that the shared accessor computes, when the frame lies within the buffer, and at its end.
left_within : (n st : ℕ) → st ≤ n → n < 2 ^ 63 → add64 n (2 ^ 64 - st) ≡ n - st
left_within n st h k = omega arith

left_beyond : (n st : ℕ) → n < st → st < 2 ^ 64 → add64 n (2 ^ 64 - st) ≡ n + (2 ^ 64 - st)
left_beyond n st h k = omega arith

end_within :
    (n size st : ℕ)
    → n < 2 ^ 63
    → st + size ≤ n
    → add64 st (min size (add64 n (2 ^ 64 - st))) ≡ st + size
end_within n size st h k = omega (arith, left_within n st (omega arith) h)

end_at : (n size : ℕ) → n < 2 ^ 63 → add64 n (min size (add64 n (2 ^ 64 - n))) ≡ n
end_at n size h = omega (arith, left_within n n (omega arith) h)

end_beyond :
    (n size st : ℕ)
    → n < 2 ^ 63
    → n < st
    → st < 2 ^ 64
    → 1 ≤ size
    → (add64 st (min size (add64 n (2 ^ 64 - st))) < st)
      ⊎ (n < add64 st (min size (add64 n (2 ^ 64 - st))))
end_beyond n size st h k z f = omega (arith, left_beyond n st k z)

start_lem : (i s : ℕ) → i * s < 2 ^ 64 → mul64 i s ≡ i * s
start_lem i s h = omega arith

take_none : (n : ℕ) (bs : Bytes) → n ≡ 0 → take n bs ≡ []
take_none zero bs h = refl
take_none (suc n) bs h = absurd (omega arith)

-- Both accessors slice the buffer, the shared one up to an end of its own.
same_slice :
    (u : UmemRegion) (i st end : ℕ)
    → mul64 i u.frame_size ≡ st
    → add64 st (min u.frame_size (add64 (length u.buffer) (2 ^ 64 - st))) ≡ end
    → mut_end u st ≡ end
    → (get_frame u i ≡ slice u.buffer st end) × (get_frame_mut u i ≡ slice u.buffer st end)
unfolding get_frame get_frame_mut
same_slice u i st end e k m = (rw (e, k), rw (e, m))

slice_at :
    (u : UmemRegion) (i st end : ℕ)
    → (get_frame u i ≡ slice u.buffer st end) × (get_frame_mut u i ≡ slice u.buffer st end)
    → st ≤ end
    → end ≤ length u.buffer
    → (get_frame u i ≡ some (take (end - st) (drop st u.buffer)))
      × (get_frame_mut u i ≡ some (take (end - st) (drop st u.buffer)))
slice_at u i st end s h k = let e = slice_in u.buffer st end h k in (s.0 ∙ e, s.1 ∙ e)

frame_inside :
    (u : UmemRegion) (i : ℕ)
    → IsRegion u
    → i < u.frame_count
    → (get_frame u i ≡ some (take u.frame_size (drop (i * u.frame_size) u.buffer)))
      × (get_frame_mut u i ≡ get_frame u i)
      × (length (take u.frame_size (drop (i * u.frame_size) u.buffer)) ≡ u.frame_size)
frame_inside u i v h =
    let inside = next_within i u.frame_count u.frame_size h in
    let st = i * u.frame_size in
    let fits : st + u.frame_size ≤ length u.buffer = omega (arith, inside, v.sized) in
    let s =
      same_slice u i st (st + u.frame_size)
        (start_lem i u.frame_size (omega (arith, fits, v.small)))
        (end_within (length u.buffer) u.frame_size st v.small fits)
        (omega (arith, fits, v.small)) in
    let r = slice_at u i st (st + u.frame_size) s (omega arith) fits in
    let count : st + u.frame_size - st ≡ u.frame_size = omega arith in
    let size = length-drop st u.buffer in
    let e = ap (λ n. some (take n (drop st u.buffer))) count in
    (r.0 ∙ e, r.1 ∙ sym r.0, omega (arith, length-take u.frame_size (drop st u.buffer), size, fits))

frame_at_end :
    (u : UmemRegion) (i : ℕ)
    → IsRegion u
    → i ≡ u.frame_count
    → (get_frame u i ≡ some []) × (get_frame_mut u i ≡ some [])
frame_at_end u i v h =
    let n = length u.buffer in
    let at_end : n ≡ i * u.frame_size = v.sized ∙ ap (λ c. c * u.frame_size) (sym h) in
    let s =
      same_slice u i n n (start_lem i u.frame_size (omega (arith, at_end, v.small)) ∙ sym at_end)
        (end_at n u.frame_size v.small) (omega (arith, v.small, v.frame)) in
    let r = slice_at u i n n s (omega arith) (omega arith) in
    let e = ap some (take_none (n - n) (drop n u.buffer) (omega arith)) in (r.0 ∙ e, r.1 ∙ e)

frame_beyond :
    (u : UmemRegion) (i : ℕ)
    → IsRegion u
    → i * u.frame_size < 2 ^ 64
    → u.frame_count < i
    → (get_frame u i ≡ none) × (get_frame_mut u i ≡ none)
unfolding get_frame get_frame_mut
frame_beyond u i v h k =
    let inside = next_within u.frame_count i u.frame_size k in
    let st = i * u.frame_size in
    let past : length u.buffer < st = omega (arith, inside, v.sized, v.filled) in
    let end = add64 st (min u.frame_size (add64 (length u.buffer) (2 ^ 64 - st))) in
    let e = start_lem i u.frame_size h in
    let out = end_beyond (length u.buffer) u.frame_size st v.small past h v.filled in
    (
      (rw e) ∙ slice_out u.buffer st end out,
      (rw e) ∙ slice_out u.buffer st (mut_end u st) (inl (omega (arith, past))),
    )

-- For a region of less than 2^63 bytes whose buffer is its frames, none of them empty, and an index
-- whose start is below 2^64: at an index below the count both accessors give the same `frame_size`
-- bytes from its start, at the count both give the empty slice, and at a greater index both panic.
pub get_frame_lem :
    (u : UmemRegion) (i : ℕ)
    → IsRegion u
    → i * u.frame_size < 2 ^ 64
    → (i < u.frame_count
        → (get_frame u i ≡ some (take u.frame_size (drop (i * u.frame_size) u.buffer)))
          × (get_frame_mut u i ≡ get_frame u i)
          × (length (take u.frame_size (drop (i * u.frame_size) u.buffer)) ≡ u.frame_size))
      × (i ≡ u.frame_count → (get_frame u i ≡ some []) × (get_frame_mut u i ≡ some []))
      × (u.frame_count < i → (get_frame u i ≡ none) × (get_frame_mut u i ≡ none))
get_frame_lem u i v h = (frame_inside u i v, frame_at_end u i v, frame_beyond u i v h)
