-- ===== src/Pqc/Kem.antt =====
-- `HybridKem` of crates/pqc-transport/src/lib.rs. Randomness is an input. A `[u8; 32]` is a list of
-- 32 bytes.
pub mod Agreement
use sovereign_edge_tee_agent.Base.{
  ℕ, Bytes, Bool, true, false, text, ◌++◌, replicate, length, ◌==◌, if◌then◌else◌,
}
use sovereign_edge_tee_agent.Pqc.Error.{
  PqcError, encapsulation_failed, decapsulation_failed, invalid_mlkem_key, Result, ok, err, ◌>>=◌,
}
use sovereign_edge_tee_agent.Pqc.Crypto.{Crypto}

pub record HybridPublicKey : Type 0 where
  pub x25519_pubkey : Bytes
  pub mlkem_pubkey : Bytes

pub record HybridSecretKey : Type 0 where
  pub x25519_seckey : Bytes
  pub mlkem_seed : Bytes

pub record HybridEncapsulation : Type 0 where
  pub x25519_ephemeral_pubkey : Bytes
  pub mlkem_ciphertext : Bytes

pub record HybridKem : Type 0 where
  pub local_secret : HybridSecretKey
  pub local_public : HybridPublicKey

-- `try_into` to an array of a given size.
abbrev sized : ℕ → Bytes → PqcError → Result Bytes
sized n bytes e = if length bytes == n then ok bytes else err e

module _ (c : Crypto) where
  -- `generate`, from the secret of X25519 and the randomness of ML-KEM
  unfoldable pub generate : Bytes → Bytes → HybridKem
  generate x25519_secret mlkem_random =
      let (seed, public) = c.mlkem_keypair mlkem_random in
      record {
        local_secret = record { x25519_seckey = x25519_secret; mlkem_seed = seed };
        local_public = record {
          x25519_pubkey = c.x25519_public x25519_secret;
          mlkem_pubkey = public;
        };
      }

  -- `x25519_dh_real`
  unfoldable pub x25519_dh_real : Bytes → Bytes → Result Bytes
  x25519_dh_real seckey pubkey = ok (c.diffie_hellman seckey pubkey)

  unfoldable pub mlkem_encapsulate : Bytes → Bytes → Result (Bytes × Bytes)
  mlkem_encapsulate pubkey random = do
    ek_bytes ← sized c.mlkem_key_size pubkey invalid_mlkem_key
    ek ← (if c.mlkem_key_check ek_bytes then ok ek_bytes else err invalid_mlkem_key)
    ss ← sized 32 (c.encapsulate ek random).1 encapsulation_failed
    ok ((c.encapsulate ek random).0, ss)

  unfoldable pub mlkem_decapsulate : HybridKem → Bytes → Result Bytes
  mlkem_decapsulate kem ciphertext = do
    ct ← sized c.mlkem_ciphertext_size ciphertext invalid_mlkem_key
    sized 32 (c.decapsulate kem.local_secret.mlkem_seed ct) decapsulation_failed

  -- The 64 bytes `combined` and their hash.
  unfoldable pub combine : Bytes → Bytes → Bytes
  combine x25519_shared mlkem_shared = c.sha256 (x25519_shared ++ mlkem_shared)

  unfoldable pub decapsulate_from_peer : HybridKem → HybridEncapsulation → Result Bytes
  unfolding x25519_dh_real mlkem_decapsulate
  decapsulate_from_peer kem encapsulation = do
    x25519_shared ←
        x25519_dh_real kem.local_secret.x25519_seckey encapsulation.x25519_ephemeral_pubkey
    mlkem_shared ← mlkem_decapsulate kem encapsulation.mlkem_ciphertext
    ok (combine x25519_shared mlkem_shared)

  -- The randomness: the ephemeral secret of X25519, and that of ML-KEM.
  unfoldable pub encapsulate_to_peer :
      HybridPublicKey → Bytes → Bytes → Result (HybridEncapsulation × Bytes)
  unfolding x25519_dh_real mlkem_encapsulate
  encapsulate_to_peer remote_public eph_secret random = do
    x25519_shared ← x25519_dh_real eph_secret remote_public.x25519_pubkey
    (mlkem_ciphertext, mlkem_shared) ← mlkem_encapsulate remote_public.mlkem_pubkey random
    ok (
      record {
        x25519_ephemeral_pubkey = c.x25519_public eph_secret;
        mlkem_ciphertext = mlkem_ciphertext;
      },
      combine x25519_shared mlkem_shared,
    )
