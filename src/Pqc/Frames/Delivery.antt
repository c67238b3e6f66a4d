-- ===== src/Pqc/Frames/Delivery.antt =====
-- What two linked sessions transfer.
use sovereign_edge_tee_agent.Base.{ℕ, ◌+◌, ◌-◌, ◌^◌, ◌≤◌, ◌<◌, ◌≡◌, refl, ap}
use sovereign_edge_tee_agent.Base.{Bytes, List, [], ◌∷◌, map, arith, length, le_bytes, replicate}
use sovereign_edge_tee_agent.Base.{none, some}
use sovereign_edge_tee_agent.Common.{TelemetryFrame, EncryptedFrame}
use sovereign_edge_tee_agent.Pqc.Error.{Result, ok, err, decryption_failed}
use sovereign_edge_tee_agent.Pqc.Crypto.{Crypto, IsAead, IsSealing}
use sovereign_edge_tee_agent.Pqc.Session.{PqcSession, nonce_bytes, encrypt, decrypt}
use sovereign_edge_tee_agent.Pqc.Frames.{frame_data, encrypt_frame, decrypt_frame}

-- What `a` sends, `b` can read next.
pub record IsLinked (a b : PqcSession) : Type 0 where
  pub keys : a.send_key ≡ b.recv_key
  pub counters : a.send_nonce ≡ b.recv_nonce

-- The frame on the wire for a ciphertext.
abbrev pub wire : {F : Type 0} → TelemetryFrame F → Bytes → EncryptedFrame
wire f ct = record {
  frame_id = f.frame_id;
  nonce = replicate 12 0;
  ciphertext = ct;
  tag = replicate 16 0;
}

module _ (c : Crypto) where
  -- The peer's side for what `encrypt_frame` returned: a failed call sends nothing.
  abbrev pub receive : Result EncryptedFrame → PqcSession → ℕ → Result Bytes × PqcSession
  receive (ok encrypted) b now = decrypt_frame c b encrypted now
  receive (err e) b now = (err e, b)

  pub encrypt_frame-seal :
      {F : Type 0} (a : PqcSession) (f : TelemetryFrame F) (now : ℕ) {ct : Bytes}
      → a.send_nonce < 2 ^ 64
      → c.seal a.send_key (nonce_bytes a.send_nonce) f.payload (frame_data f.frame_id) ≡ some ct
      → encrypt_frame c a f now
        ≡ (ok (wire f ct), record a { send_nonce = a.send_nonce + 1; last_activity = now })
  unfolding encrypt_frame encrypt
  encrypt_frame-seal a f now h e = ground arith

  pub decrypt_frame-unseal :
      (b : PqcSession) (w : EncryptedFrame) (now : ℕ) {m : Bytes}
      → b.recv_nonce < 2 ^ 64
      → c.unseal b.recv_key (nonce_bytes b.recv_nonce) w.ciphertext (frame_data w.frame_id) ≡ some m
      → decrypt_frame c b w now
        ≡ (ok m, record b { recv_nonce = b.recv_nonce + 1; last_activity = now })
  unfolding decrypt_frame decrypt
  decrypt_frame-unseal b w now h e = ground arith

  pub decrypt_frame-unseal_none :
      (b : PqcSession) (w : EncryptedFrame) (now : ℕ)
      → b.recv_nonce < 2 ^ 64
      → c.unseal b.recv_key (nonce_bytes b.recv_nonce) w.ciphertext (frame_data w.frame_id) ≡ none
      → decrypt_frame c b w now ≡ (err (decryption_failed c.aead_error), b)
  unfolding decrypt_frame decrypt
  decrypt_frame-unseal_none b w now h e = ground arith

module _ (c : Crypto) {F : Type 0} where
  -- Frames that are encrypted by `a` and, if that succeeds, decrypted by `b`, in order: the results
  -- and the receiving session at the end. Each comes with the two times.
  unfoldable pub transfer :
      PqcSession → PqcSession → List (TelemetryFrame F × ℕ × ℕ) → List (Result Bytes) × PqcSession
  transfer a b [] = ([], b)
  transfer a b ((f, sent, received) ∷ frames) =
      let (r, a') = encrypt_frame c a f sent in
      let (q, b') = receive c r b received in
      let (rest, b'') = transfer a' b' frames in (q ∷ rest, b'')

  abbrev pub AllSealable : List (TelemetryFrame F × ℕ × ℕ) → Type 0
  AllSealable [] = Unit {0}
  AllSealable ((f, _, _) ∷ fs) = (length f.payload ≤ 2 ^ 36 - 32) × AllSealable fs

frame_data-length : (i : ℕ) → length (frame_data i) ≤ 8
unfolding le_bytes
frame_data-length i = omega arith

module _ (c : Crypto) (h : IsAead c) where
  pub decrypt_frame-wire :
      {F : Type 0} (a b : PqcSession) (f : TelemetryFrame F) (now : ℕ) {ct : Bytes}
      → IsLinked a b
      → a.send_nonce < 2 ^ 64
      → c.seal a.send_key (nonce_bytes a.send_nonce) f.payload (frame_data f.frame_id) ≡ some ct
      → decrypt_frame c b (wire f ct) now
        ≡ (ok f.payload, record b { recv_nonce = b.recv_nonce + 1; last_activity = now })
  decrypt_frame-wire a b f now {ct} l n e =
      decrypt_frame-unseal c b (wire f ct) now (omega (arith, l.counters))
        (rw (← l.keys, ← l.counters) (h.unseal-seal _ _ _ _ e))

module _ (c : Crypto) (h : IsAead c) (k : IsSealing c) {F : Type 0} where
  -- With a cipher that is correct and seals payloads within its limit: between linked sessions, with
  -- counters that do not pass 2^64 and payloads within that limit, every frame that is sent arrives,
  -- in order and unchanged, whatever the times.
  pub transfer-IsLinked :
      (a b : PqcSession) (frames : List (TelemetryFrame F × ℕ × ℕ))
      → IsLinked a b
      → a.send_nonce + length frames ≤ 2 ^ 64
      → AllSealable c frames
      → (transfer c a b frames).0 ≡ map (λ x. ok (x.0.payload)) frames
  unfolding transfer
  transfer-IsLinked a b [] l n p = refl
  transfer-IsLinked a b ((f, sent, received) ∷ frames) l n p =
      let (ct, e) =
        k.seal-some a.send_key (nonce_bytes a.send_nonce) f.payload (frame_data f.frame_id) p.0
          (frame_data-length f.frame_id) in
      rw
        (
          encrypt_frame-seal c a f sent (omega arith) e,
          decrypt_frame-wire c h a b f received l (omega arith) e,
        )
        (ap (λ rs. ok f.payload ∷ rs)
          (transfer-IsLinked (record a { send_nonce = a.send_nonce + 1; last_activity = sent })
            (record b { recv_nonce = b.recv_nonce + 1; last_activity = received }) frames
            (record { keys = l.keys; counters = ap (λ (n : ℕ). n + 1) l.counters }) (omega arith)
            p.1))
