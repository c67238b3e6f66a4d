-- ===== src/Pqc/Frames/Rejection.antt =====
-- What a session refuses: frames after a loss, replays and changed frame ids.
use sovereign_edge_tee_agent.Base.{ℕ, ◌+◌, ◌^◌, ◌≤◌, ◌<◌, ◌≡◌, ◌≢◌, refl, sym, ap, ◌⊎◌, inl, inr}
use sovereign_edge_tee_agent.Base.{Bytes, List, [], ◌∷◌, arith, le_bytes, Bool-cases, leb}
use sovereign_edge_tee_agent.Base.{Option-cases, some}
use sovereign_edge_tee_agent.Common.{TelemetryFrame, EncryptedFrame}
use sovereign_edge_tee_agent.Pqc.Error.{
  PqcError, Result, ok, err, nonce_exhausted, encryption_failed, decryption_failed,
}
use sovereign_edge_tee_agent.Pqc.Crypto.{Crypto, IsAead}
use sovereign_edge_tee_agent.Pqc.Session.{PqcSession, nonce_bytes, encrypt}
use sovereign_edge_tee_agent.Pqc.Session.Nonces.{nonce_bytes_injective, value}
use sovereign_edge_tee_agent.Pqc.Frames.{frame_data, encrypt_frame, decrypt_frame}
use sovereign_edge_tee_agent.Pqc.Frames.Delivery.{
  IsLinked, wire, transfer, decrypt_frame-unseal_none, decrypt_frame-wire,
}

value-frame_data : (i : ℕ) → i < 2 ^ 64 → value (frame_data i) ≡ i
unfolding le_bytes
value-frame_data i h = omega arith

pub frame_data_injective : (i j : ℕ) → i < 2 ^ 64 → j < 2 ^ 64 → frame_data i ≡ frame_data j → i ≡ j
frame_data_injective i j h k e =
    omega (arith, value-frame_data i h, value-frame_data j k, ap value e)

module _ (c : Crypto) {F : Type 0} where
  -- `encrypt_frame` seals under the next nonce and advances, or fails and changes nothing.
  pub encrypt_frame_cases :
      (a : PqcSession) (f : TelemetryFrame F) (now : ℕ)
      → ((ct : Bytes) × (a.send_nonce < 2 ^ 64)
          × (c.seal a.send_key (nonce_bytes a.send_nonce) f.payload (frame_data f.frame_id)
              ≡ some ct)
          × (encrypt_frame c a f now
              ≡ (ok (wire f ct), record a { send_nonce = a.send_nonce + 1; last_activity = now })))
        ⊎ ((e : PqcError) × (encrypt_frame c a f now ≡ (err e, a)))
  unfolding encrypt_frame encrypt
  encrypt_frame_cases a f now = elim (Bool-cases (leb (2 ^ 64) a.send_nonce)) [
    | inl full ↦ inr (nonce_exhausted a.session_id, ground arith)
    | inr room ↦
        elim (Option-cases
          (c.seal a.send_key (nonce_bytes a.send_nonce) f.payload (frame_data f.frame_id))) [
            | inl e ↦ inr (encryption_failed c.aead_error, ground arith)
            | inr (ct, e) ↦ inl (ct, ground arith, e, ground arith)
          ]
  ]

module _ (c : Crypto) {F : Type 0} where
  -- Where a frame on the wire comes from.
  encrypt_frame-ok :
      (a : PqcSession) (f : TelemetryFrame F) (now : ℕ) {w : EncryptedFrame}
      → (encrypt_frame c a f now).0 ≡ ok w
      → (ct : Bytes) × (a.send_nonce < 2 ^ 64)
        × (c.seal a.send_key (nonce_bytes a.send_nonce) f.payload (frame_data f.frame_id) ≡ some ct)
        × (w ≡ wire f ct)
  encrypt_frame-ok a f now {w} ew = elim (encrypt_frame_cases c a f now) [
    | inl (ct, n, e, q) ↦
        (ct, n, e, cc (ew, ap (λ (p : Result EncryptedFrame × PqcSession). p.0) q))
    | inr (e, q) ↦ absurd (cc (ew, ap (λ (p : Result EncryptedFrame × PqcSession). p.0) q))
  ]

-- No result is a success.
abbrev pub AllFailed : List (Result Bytes) → Type 0
AllFailed [] = Unit {0}
AllFailed (r ∷ rs) = ((e : PqcError) × (r ≡ err e)) × AllFailed rs

module _ (c : Crypto) (h : IsAead c) {F : Type 0} where
  other_nonce :
      (a b : PqcSession) (f : TelemetryFrame F) (now : ℕ) {ct : Bytes} (w : EncryptedFrame)
      → a.send_key ≡ b.recv_key
      → w.ciphertext ≡ ct
      → a.send_nonce < 2 ^ 64
      → b.recv_nonce < 2 ^ 64
      → a.send_nonce ≢ b.recv_nonce
      → c.seal a.send_key (nonce_bytes a.send_nonce) f.payload (frame_data f.frame_id) ≡ some ct
      → decrypt_frame c b w now ≡ (err (decryption_failed c.aead_error), b)
  other_nonce a b f now w key same n m ne e = decrypt_frame-unseal_none c b w now m (
      rw (← key, same)
        (h.unseal_other_nonce _ _ _ _ _ _ e
          (λ q. ne (nonce_bytes_injective a.send_nonce b.recv_nonce n m q))))

  -- With an authentic cipher: once the sender is ahead of the receiver under their common key, as
  -- after a frame that was lost on the way, no frame that is sent later is ever accepted, and the
  -- receiver stays as it is.
  pub transfer_after_loss :
      (a b : PqcSession) (frames : List (TelemetryFrame F × ℕ × ℕ))
      → a.send_key ≡ b.recv_key
      → b.recv_nonce < a.send_nonce
      → a.send_nonce ≤ 2 ^ 64
      → AllFailed (transfer c a b frames).0 × ((transfer c a b frames).1 ≡ b)
  unfolding transfer
  transfer_after_loss a b [] key m n = (tt, refl)
  transfer_after_loss a b ((f, sent, received) ∷ frames) key m n =
      elim (encrypt_frame_cases c a f sent) [
        | inl (ct, k, e, q) ↦
            rw
              (
                q,
                other_nonce a b f received {ct = ct} (wire f ct) key refl k (omega arith)
                    (omega arith) e,
              )
              (let (fails, same) =
                  transfer_after_loss
                    (record a { send_nonce = a.send_nonce + 1; last_activity = sent }) b frames key
                    (omega arith) (omega arith) in
                (((decryption_failed c.aead_error, refl), fails), same))
        | inr (e, q) ↦ rw q (
            let (fails, same) = transfer_after_loss a b frames key m n in
            (((e, refl), fails), same))
      ]

  -- With an authentic cipher, between linked sessions whose next counter is below 2^64: a frame that
  -- was accepted is refused when it comes again, and changes nothing then.
  pub decrypt_frame_replay :
      (a b : PqcSession) (f : TelemetryFrame F) (sent received later : ℕ) {w : EncryptedFrame}
      → IsLinked a b
      → a.send_nonce + 1 < 2 ^ 64
      → (encrypt_frame c a f sent).0 ≡ ok w
      → let (r, b') = decrypt_frame c b w received in
        (r ≡ ok f.payload)
        × (decrypt_frame c b' w later ≡ (err (decryption_failed c.aead_error), b'))
  decrypt_frame_replay a b f sent received later {w} l n ew =
      let (ct, _, e, q) = encrypt_frame-ok c a f sent ew in
      rw (q, decrypt_frame-wire c h a b f received l (omega arith) e)
        (
          refl,
          other_nonce a (record b { recv_nonce = b.recv_nonce + 1; last_activity = received }) f
              later (wire f ct) l.keys refl (omega arith) (omega (arith, l.counters))
              (omega (arith, l.counters)) e,
        )

  -- With an authentic cipher, between linked sessions: a frame whose id was changed on the way to
  -- another 64-bit id is refused, and changes nothing.
  pub decrypt_frame_changed_id :
      (a b : PqcSession) (f : TelemetryFrame F) (sent received i : ℕ) {w : EncryptedFrame}
      → IsLinked a b
      → f.frame_id < 2 ^ 64
      → i < 2 ^ 64
      → i ≢ f.frame_id
      → (encrypt_frame c a f sent).0 ≡ ok w
      → decrypt_frame c b (record w { frame_id = i }) received
        ≡ (err (decryption_failed c.aead_error), b)
  decrypt_frame_changed_id a b f sent received i {w} l n m ne ew =
      let (ct, k, e, q) = encrypt_frame-ok c a f sent ew in
      rw q (
        decrypt_frame-unseal_none c b (record (wire f ct) { frame_id = i }) received
          (omega (arith, l.counters))
          (rw (← l.keys, ← l.counters)
            (h.unseal_other_data _ _ _ _ _ e
              (λ d. ne (frame_data_injective i f.frame_id m n (sym d))))))
