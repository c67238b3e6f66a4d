-- ===== src/Pqc/Session.antt =====
-- `PqcSession` of crates/pqc-transport/src/lib.rs. The clock and the random session id are inputs. A
-- method on `&mut self` returns its result and the session after it.
pub mod Nonces
use sovereign_edge_tee_agent.Base.{ℕ, ◌+◌, ◌-◌, ◌^◌, Bytes, Bool, Option, none, some}
use sovereign_edge_tee_agent.Base.{ltb, leb, if◌then◌else◌, take, le_bytes}
use sovereign_edge_tee_agent.Pqc.Error.{
  PqcError, encryption_failed, decryption_failed, nonce_exhausted, Result, ok, err,
}
use sovereign_edge_tee_agent.Pqc.Crypto.{Crypto}

pub record PqcSession : Type 0 where
  pub session_id : ℕ
  pub send_key : Bytes
  pub recv_key : Bytes
  pub send_nonce : ℕ
  pub recv_nonce : ℕ
  pub last_activity : ℕ

unfoldable pub new : Bytes → Bytes → ℕ → ℕ → PqcSession
new send_key recv_key random_id now = record {
  session_id = random_id;
  send_key = send_key;
  recv_key = recv_key;
  send_nonce = 0;
  recv_nonce = 0;
  last_activity = now;
}

-- `&counter.to_le_bytes()[0..12]` of a `u128`
unfoldable pub nonce_bytes : ℕ → Bytes
nonce_bytes counter = take 12 (le_bytes 16 counter)

-- `is_expired`: `saturating_sub` and a comparison
unfoldable pub is_expired : PqcSession → ℕ → ℕ → Bool
is_expired s timeout_nanos now = ltb timeout_nanos (now - s.last_activity)

module _ (c : Crypto) where
  unfoldable pub encrypt : PqcSession → Bytes → Bytes → ℕ → Result Bytes × PqcSession
  encrypt s plaintext associated_data now =
      if leb (2 ^ 64) s.send_nonce
      then (err (nonce_exhausted s.session_id), s)
      else elim (c.seal s.send_key (nonce_bytes s.send_nonce) plaintext associated_data) [
        | none ↦ (err (encryption_failed c.aead_error), s)
        | some ciphertext ↦
            (ok ciphertext, record s { send_nonce = s.send_nonce + 1; last_activity = now })
      ]

  unfoldable pub decrypt : PqcSession → Bytes → Bytes → ℕ → Result Bytes × PqcSession
  decrypt s ciphertext associated_data now =
      if leb (2 ^ 64) s.recv_nonce
      then (err (nonce_exhausted s.session_id), s)
      else elim (c.unseal s.recv_key (nonce_bytes s.recv_nonce) ciphertext associated_data) [
        | none ↦ (err (decryption_failed c.aead_error), s)
        | some plaintext ↦
            (ok plaintext, record s { recv_nonce = s.recv_nonce + 1; last_activity = now })
      ]
