-- ===== src/Pqc/Frames.antt =====
-- `encrypt_frame` and `decrypt_frame` of crates/pqc-transport/src/lib.rs, on the session that their
-- lock gives them.
pub mod Delivery
pub mod Rejection
use sovereign_edge_tee_agent.Base.{ℕ, Bytes, List, [], ◌∷◌, le_bytes, replicate}
use sovereign_edge_tee_agent.Common.{TelemetryFrame, EncryptedFrame}
use sovereign_edge_tee_agent.Pqc.Error.{Result, ok, err}
use sovereign_edge_tee_agent.Pqc.Crypto.{Crypto}
use sovereign_edge_tee_agent.Pqc.Session.{PqcSession, encrypt, decrypt}

-- `frame_id.to_le_bytes()`
abbrev pub frame_data : ℕ → Bytes
frame_data frame_id = le_bytes 8 frame_id

module _ (c : Crypto) {F : Type 0} where
  unfoldable pub encrypt_frame :
      PqcSession → TelemetryFrame F → ℕ → Result EncryptedFrame × PqcSession
  encrypt_frame s frame now =
      let (r, s') = encrypt c s frame.payload (frame_data frame.frame_id) now in
      elim r [
        | ok ciphertext ↦ (
          ok (record {
            frame_id = frame.frame_id;
            nonce = replicate 12 0;
            ciphertext = ciphertext;
            tag = replicate 16 0;
          }),
          s',
        )
        | err e ↦ (err e, s')
      ]

module _ (c : Crypto) where
  unfoldable pub decrypt_frame : PqcSession → EncryptedFrame → ℕ → Result Bytes × PqcSession
  decrypt_frame s encrypted now =
      decrypt c s encrypted.ciphertext (frame_data encrypted.frame_id) now
