-- ===== src/Tee/Backend/Roundtrip.antt =====
-- What the simulated enclave seals, it unseals.
use sovereign_edge_tee_agent.Base.{ℕ, suc, ◌+◌, ◌≡◌, refl, ap, Bytes, [], ◌∷◌, length}
use sovereign_edge_tee_agent.Base.Bits.{bit_xor_twice}
use sovereign_edge_tee_agent.Tee.Backend.{mask}

pub mask_twice : (key : Bytes) (i : ℕ) (bs : Bytes) → mask key i (mask key i bs) ≡ bs
unfolding mask
mask_twice key i [] = refl
mask_twice key i (b ∷ bs) = cc (bit_xor_twice b _, mask_twice key (i + 1) bs)

pub length-mask : (key : Bytes) (i : ℕ) (bs : Bytes) → length (mask key i bs) ≡ length bs
unfolding mask
length-mask key i [] = refl
length-mask key i (b ∷ bs) = ap suc (length-mask key (i + 1) bs)
