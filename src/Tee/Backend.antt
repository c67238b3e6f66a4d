-- ===== src/Tee/Backend.antt =====
-- `TeeBackend`, `SimulatedTee` and `SealedStorage` of crates/tee-gateway/src/lib.rs. SHA-256 is the
-- parameter `sha256`.
pub mod Roundtrip
use Prim.Native.Nat.{bit_xor}
use sovereign_edge_tee_agent.Base.{
  ℕ, zero, suc, ◌+◌, ◌*◌, ◌%◌, Bytes, text, Bool, true, false, [], ◌∷◌, some, none, get_elem?,
}
use sovereign_edge_tee_agent.Tee.Error.{
  GatewayError, attestation_failed, unsealing_failed, Result, ok, err, ◌>>=◌,
}

pub record AttestationReport : Type 0 where
  pub quote : Bytes
  pub measurement : Bytes

pub record TeeBackend : Type 1 where
  pub Tee : Type 0
  pub seal : Tee → Bytes → Result Bytes
  pub unseal : Tee → Bytes → Result Bytes
  pub attest : Tee → Result AttestationReport

-- The key of `SimulatedTee::new`: its bytes from `i` on.
abbrev key_from : ℕ → ℕ → Bytes
key_from zero i = []
key_from (suc n) i = ((i * 7 + 13) % 256) ∷ key_from n (i + 1)

pub record SimulatedTee : Type 0 where
  pub encryption_key : Bytes

unfoldable pub new_simulated : SimulatedTee
new_simulated = record { encryption_key = key_from 32 0 }

-- `encryption_key[i % 32]`; the array has 32 bytes.
abbrev key_byte : Bytes → ℕ → ℕ
key_byte key i = elim (get_elem? key (i % 32)) [ none ↦ 0 | some k ↦ k ]

-- The loop of `seal` and of `unseal`, from position `i` on.
unfoldable pub mask : Bytes → ℕ → Bytes → Bytes
mask key i [] = []
mask key i (byte ∷ rest) = bit_xor byte (key_byte key i) ∷ mask key (i + 1) rest

unfoldable pub simulated_seal : SimulatedTee → Bytes → Result Bytes
simulated_seal tee plaintext = ok (mask tee.encryption_key 0 plaintext)

unfoldable pub simulated_unseal : SimulatedTee → Bytes → Result Bytes
simulated_unseal tee sealed = ok (mask tee.encryption_key 0 sealed)

unfoldable pub simulated_attest : (Bytes → Bytes) → SimulatedTee → Result AttestationReport
simulated_attest sha256 tee = ok (record {
  quote = text "simulated-tee-quote-v1";
  measurement = sha256 (text "simulated-tee-measurement");
})

abbrev pub simulated : (Bytes → Bytes) → TeeBackend
simulated sha256 = record {
  Tee = SimulatedTee;
  seal = simulated_seal;
  unseal = simulated_unseal;
  attest = simulated_attest sha256;
}

pub record SealedStorage (T : Type 0) : Type 0 where
  pub tee : T
  pub sealed_data : Bytes
  pub attested : Bool

module _ (tb : TeeBackend) where
  open tb use {Tee}

  unfoldable pub new_storage : Tee → SealedStorage Tee
  new_storage tee = record { tee = tee; sealed_data = []; attested = false }

  unfoldable pub seal : SealedStorage Tee → Bytes → Result (Unit {0}) × SealedStorage Tee
  seal s plaintext = elim (tb.seal s.tee plaintext) [
    | err e ↦ (err e, s)
    | ok sealed ↦ (ok tt, record s { sealed_data = sealed })
  ]

  abbrev unseal_data : SealedStorage Tee → Bytes → Result Bytes
  unseal_data s [] = err (unsealing_failed (text "No sealed data available"))
  unseal_data s (b ∷ bs) = tb.unseal s.tee (b ∷ bs)

  unfoldable pub unseal : SealedStorage Tee → Result Bytes
  unseal s = elim s.attested [ false ↦ err attestation_failed | true ↦ unseal_data s s.sealed_data ]

  unfoldable pub verify_attestation :
      SealedStorage Tee → Result AttestationReport × SealedStorage Tee
  verify_attestation s = elim (tb.attest s.tee) [
    | err e ↦ (err e, s)
    | ok report ↦ (ok report, record s { attested = true })
  ]
