-- ===== src/Pqc/Channel/Moves.antt =====
-- What the receiver does with a frame that was sent, whatever the network made of it.
use sovereign_edge_tee_agent.Base.{
  ℕ, ◌+◌, ◌^◌, ◌<◌, ◌≡◌, ◌≢◌, refl, [], ◌∷◌, ◌++◌, sym, arith, Bytes, true, leb, some, ◌⊎◌, inl,
  inr, Bool-cases,
}
use sovereign_edge_tee_agent.Common.{TelemetryFrame, EncryptedFrame}
use sovereign_edge_tee_agent.Pqc.Error.{PqcError, ok, err, nonce_exhausted, decryption_failed}
use sovereign_edge_tee_agent.Pqc.Crypto.{Crypto, IsAead}
use sovereign_edge_tee_agent.Pqc.Session.{PqcSession, nonce_bytes, decrypt}
use sovereign_edge_tee_agent.Pqc.Session.Nonces.{nonce_bytes_injective}
use sovereign_edge_tee_agent.Pqc.Frames.{frame_data, encrypt_frame, decrypt_frame}
use sovereign_edge_tee_agent.Pqc.Channel.{Channel, send, receive}
use sovereign_edge_tee_agent.Pqc.Frames.Delivery.{
  wire, decrypt_frame-unseal, decrypt_frame-unseal_none,
}
use sovereign_edge_tee_agent.Pqc.Frames.Rejection.{frame_data_injective}

module _ (c : Crypto) {F : Type 0} where
  -- The wire frame of a frame that was sealed as the `n`-th under a key.
  pub record IsSealed (key : Bytes) (n : ℕ) (f : TelemetryFrame F) (w : EncryptedFrame)
      : Type 0 where
    pub ciphertext : Bytes
    pub sealed : c.seal key (nonce_bytes n) f.payload (frame_data f.frame_id) ≡ some ciphertext
    pub on_wire : w ≡ wire f ciphertext
    pub counter_small : n < 2 ^ 64
    pub id_small : f.frame_id < 2 ^ 64

module _ (c : Crypto) where
  exhausted :
      (b : PqcSession) (w : EncryptedFrame) (now : ℕ)
      → leb (2 ^ 64) b.recv_nonce ≡ true
      → decrypt_frame c b w now ≡ (err (nonce_exhausted b.session_id), b)
  unfolding decrypt_frame decrypt
  exhausted b w now full = rw full refl

module _ (c : Crypto) (h : IsAead c) {F : Type 0} where
  pub accepts :
      (b : PqcSession) (f : TelemetryFrame F) (w : EncryptedFrame) (now : ℕ)
      → IsSealed c b.recv_key b.recv_nonce f w
      → decrypt_frame c b (record w { frame_id = f.frame_id }) now
        ≡ (ok f.payload, record b { recv_nonce = b.recv_nonce + 1; last_activity = now })
  accepts b f w now s = rw s.on_wire (
      decrypt_frame-unseal c b (wire f s.ciphertext) now s.counter_small
        (h.unseal-seal _ _ _ _ s.sealed))

  -- Another counter, or another frame id.
  pub refuses :
      (b : PqcSession) (n : ℕ) (f : TelemetryFrame F) (w : EncryptedFrame) (id now : ℕ)
      → IsSealed c b.recv_key n f w
      → id < 2 ^ 64
      → (n ≢ b.recv_nonce) ⊎ ((n ≡ b.recv_nonce) × (id ≢ f.frame_id))
      → (e : PqcError) × (decrypt_frame c b (record w { frame_id = id }) now ≡ (err e, b))
  refuses b n f w id now s k other = elim (Bool-cases (leb (2 ^ 64) b.recv_nonce)) [
    | inl full ↦ (_, exhausted c b _ now full)
    | inr room ↦ (
      decryption_failed c.aead_error,
      rw s.on_wire (
          decrypt_frame-unseal_none c b (record (wire f s.ciphertext) { frame_id = id }) now
            (ground arith)
            (elim other [
              | inl ne ↦
                  h.unseal_other_nonce _ _ _ _ _ _ s.sealed (λ q.
                    ne (nonce_bytes_injective n b.recv_nonce s.counter_small (ground arith) q))
              | inr (e, ne) ↦ rw (← e) (
                  h.unseal_other_data _ _ _ _ _ s.sealed
                    (λ q. ne (sym (frame_data_injective f.frame_id id s.id_small k q))))
            ])),
    )
  ]

module _ (c : Crypto) {F : Type 0} where
  pub send-ok :
      (ch : Channel F) (f : TelemetryFrame F) (now : ℕ) {w : EncryptedFrame} {a : PqcSession}
      → encrypt_frame c ch.sender f now ≡ (ok w, a)
      → send c ch f now ≡ record ch { sender = a; sent = ch.sent ++ ((f, w) ∷ []) }
  unfolding send
  send-ok ch f now e = ground arith

  pub send-err :
      (ch : Channel F) (f : TelemetryFrame F) (now : ℕ) {x : PqcError}
      → encrypt_frame c ch.sender f now ≡ (err x, ch.sender)
      → send c ch f now ≡ ch
  unfolding send
  send-err ch f now e = ground arith

  pub receive-ok :
      (ch : Channel F) (w : EncryptedFrame) (now : ℕ) {m : Bytes} {b : PqcSession}
      → decrypt_frame c ch.receiver w now ≡ (ok m, b)
      → receive c ch w now ≡ record ch { receiver = b; accepted = ch.accepted ++ (m ∷ []) }
  unfolding receive
  receive-ok ch w now e = ground arith

  pub receive-err :
      (ch : Channel F) (w : EncryptedFrame) (now : ℕ) {x : PqcError}
      → decrypt_frame c ch.receiver w now ≡ (err x, ch.receiver)
      → receive c ch w now ≡ ch
  unfolding receive
  receive-err ch w now e = ground arith
