-- ===== src/Pqc/Crypto.antt =====
-- What pqc-transport calls of the crates aes-gcm, sha2, x25519-dalek and ml-kem, and the documented
-- behaviour of these that the theorems rest on.
use sovereign_edge_tee_agent.Base.{
  ℕ, Bytes, Option, some, none, Bool, true, ◌≡◌, ◌≢◌, ◌≤◌, ◌^◌, ◌-◌, length,
}

pub record Crypto : Type 0 where
  -- `Sha256::digest`
  pub sha256 : Bytes → Bytes
  -- `Aes256Gcm::encrypt` and `decrypt`: key, nonce, message or ciphertext, associated data
  pub seal : Bytes → Bytes → Bytes → Bytes → Option Bytes
  pub unseal : Bytes → Bytes → Bytes → Bytes → Option Bytes
  -- the text of the error of aes-gcm
  pub aead_error : Bytes
  -- the public key of a secret key, and `diffie_hellman` of a secret and a public key
  pub x25519_public : Bytes → Bytes
  pub diffie_hellman : Bytes → Bytes → Bytes
  -- `MlKem768::generate_keypair` from its randomness: the seed and the encapsulation key
  pub mlkem_keypair : Bytes → Bytes × Bytes
  -- the sizes of an encapsulation key and of a ciphertext, and the check of `EncapsulationKey::new`
  pub mlkem_key_size : ℕ
  pub mlkem_ciphertext_size : ℕ
  pub mlkem_key_check : Bytes → Bool
  -- `encapsulate` of a key from its randomness: the ciphertext and the shared secret
  pub encapsulate : Bytes → Bytes → Bytes × Bytes
  -- `decapsulate` of a seed and a ciphertext
  pub decapsulate : Bytes → Bytes → Bytes

-- The cipher: decryption undoes encryption, and a ciphertext opens only under the nonce and the
-- associated data that it was made with (authenticity of GCM, as of a perfect cipher).
pub record IsAead (c : Crypto) : Type 0 where
  pub unseal-seal :
      (k n m a : Bytes) {ct : Bytes} → c.seal k n m a ≡ some ct → c.unseal k n ct a ≡ some m
  pub unseal_other_nonce :
      (k n n' m a a' : Bytes) {ct : Bytes}
      → c.seal k n m a ≡ some ct
      → n ≢ n'
      → c.unseal k n' ct a' ≡ none
  pub unseal_other_data :
      (k n m a a' : Bytes) {ct : Bytes}
      → c.seal k n m a ≡ some ct
      → a ≢ a'
      → c.unseal k n ct a' ≡ none

-- The most that GCM encrypts under one nonce, 2^36 - 32 bytes; the associated data is 8 bytes here.
pub record IsSealing (c : Crypto) : Type 0 where
  pub seal-some :
      (k n m a : Bytes)
      → length m ≤ 2 ^ 36 - 32
      → length a ≤ 8
      → (ct : Bytes) × (c.seal k n m a ≡ some ct)

-- The two key exchanges: both sides get the same secret, and keys and ciphertexts have their sizes.
pub record IsKeyExchange (c : Crypto) : Type 0 where
  pub dh_comm :
      (s t : Bytes)
      → c.diffie_hellman s (c.x25519_public t) ≡ c.diffie_hellman t (c.x25519_public s)
  pub key_size : (r : Bytes) → length (c.mlkem_keypair r).1 ≡ c.mlkem_key_size
  pub key_check : (r : Bytes) → c.mlkem_key_check (c.mlkem_keypair r).1 ≡ true
  pub ciphertext_size :
      (r e : Bytes) → length (c.encapsulate (c.mlkem_keypair r).1 e).0 ≡ c.mlkem_ciphertext_size
  pub secret_size : (r e : Bytes) → length (c.encapsulate (c.mlkem_keypair r).1 e).1 ≡ 32
  pub decapsulate-encapsulate :
      (r e : Bytes)
      → c.decapsulate (c.mlkem_keypair r).0 (c.encapsulate (c.mlkem_keypair r).1 e).0
        ≡ (c.encapsulate (c.mlkem_keypair r).1 e).1
