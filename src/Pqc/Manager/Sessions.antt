-- ===== src/Pqc/Manager/Sessions.antt =====
-- The two ends of a session that the key exchange sets up.
use sovereign_edge_tee_agent.Base.{
  ℕ, ◌+◌, Bytes, ◌≡◌, refl, some, arith, text, length, get_elem?, [], ◌∷◌, ◌++◌,
}
use sovereign_edge_tee_agent.Base.{
  get_elem?-set_self, get_elem?-set_ne, get_elem?-lt, set, ◌≢◌, sym, ap, ◌∙◌, ◌<◌, ◌^◌, inl, inr,
}
use sovereign_edge_tee_agent.Common.{TelemetryFrame, EncryptedFrame}
use sovereign_edge_tee_agent.Pqc.Error.{ok}
use sovereign_edge_tee_agent.Pqc.Crypto.{Crypto, IsKeyExchange, IsAead}
use sovereign_edge_tee_agent.Pqc.Session
use sovereign_edge_tee_agent.Pqc.Session.{PqcSession, nonce_bytes}
use sovereign_edge_tee_agent.Pqc.Frames
use sovereign_edge_tee_agent.Pqc.Frames.{frame_data}
use sovereign_edge_tee_agent.Pqc.Frames.Rejection.{encrypt_frame_cases}
use sovereign_edge_tee_agent.Pqc.Frames.Delivery.{IsLinked, wire, decrypt_frame-wire}
use sovereign_edge_tee_agent.Pqc.Kem.{HybridEncapsulation, generate}
use sovereign_edge_tee_agent.Pqc.Kem.Agreement.{decapsulate-encapsulate_to_peer}
use sovereign_edge_tee_agent.Pqc.Manager.{
  World, PqcTransportManager, key_material, establish_session, accept_session, encrypt_frame,
  decrypt_frame,
}

module _ (c : Crypto) where
  sender : Bytes → ℕ → ℕ → PqcSession
  sender key id now =
      Session.new (c.sha256 (key_material key (text "SEND")))
        (c.sha256 (key_material key (text "RECV"))) id now

  receiver : Bytes → ℕ → ℕ → PqcSession
  receiver key id now =
      Session.new (c.sha256 (key_material key (text "RECV")))
        (c.sha256 (key_material key (text "SEND"))) id now

  sender-receiver :
      (key : Bytes) (i j s t : ℕ)
      → IsLinked (sender key i s) (receiver key j t) × IsLinked (receiver key j t) (sender key i s)
  unfolding sender receiver Session.new
  sender-receiver key i j s t = ground arith

-- A manager with one more session.
abbrev pub with_session : PqcTransportManager → ℕ → PqcTransportManager
with_session m arc = record m { sessions = m.sessions ++ (arc ∷ []) }

module _ (c : Crypto) (k : IsKeyExchange c) where
  -- The same with the accepting side chosen afterwards; and the new session has not sent anything and was active just now.
  pub establish-accept_later :
      (w : World) (m : PqcTransportManager) (secret random eph_secret eph_random : Bytes) (i s : ℕ)
      → let bob = generate c secret random in
        (e : HybridEncapsulation) × (a : PqcSession) × (establish_session c w m bob.local_public
            eph_secret eph_random i s
          ≡ (ok (length w, e), w ++ (a ∷ []), with_session m (length w)))
        × (a.send_nonce ≡ 0)
        × (a.last_activity ≡ s)
        × ((w' : World) (m' : PqcTransportManager) (j t : ℕ)
            → (b : PqcSession) × (accept_session c w' m' bob e j t
                ≡ (ok (length w'), w' ++ (b ∷ []), with_session m' (length w')))
              × IsLinked a b
              × IsLinked b a)
  unfolding establish_session accept_session sender receiver Session.new
  establish-accept_later w m secret random es er i s =
      let (e, key, sent, received) = decapsulate-encapsulate_to_peer c k secret random es er in
      (
        e,
        sender c key i s,
        ground arith,
        refl,
        refl,
        λ w' m' j t.
            let (there, back) = sender-receiver c key i j s t in
            (receiver c key j t, ground arith, there, back),
      )

  -- With a correct key exchange, for all randomness, session ids and times: establishing a session
  -- to a generated public key and accepting it with the generated key, whatever sessions exist at
  -- either moment, adds one session to each manager and to each store, and the two are linked in
  -- both directions.
  pub establish-accept :
      (w w' : World) (ma mb : PqcTransportManager) (secret random eph_secret eph_random : Bytes)
      (i j s t : ℕ)
      → let bob = generate c secret random in
        (e : HybridEncapsulation) × (a : PqcSession) × (b : PqcSession) × (establish_session c w ma
            bob.local_public eph_secret eph_random i s
          ≡ (ok (length w, e), w ++ (a ∷ []), with_session ma (length w)))
        × (accept_session c w' mb bob e j t
            ≡ (ok (length w'), w' ++ (b ∷ []), with_session mb (length w')))
        × IsLinked a b
        × IsLinked b a
  establish-accept w w' ma mb secret random es er i j s t =
      let (e, a, sent, _, _, accepts) = establish-accept_later w ma secret random es er i s in
      let (b, received, there, back) = accepts w' mb j t in (e, a, b, sent, received, there, back)

module _ (c : Crypto) where
  -- The two calls through the store.
  encrypted_from :
      {F : Type 0} (w : World) (i : ℕ) (a : PqcSession) (f : TelemetryFrame F) (now : ℕ)
      {enc : EncryptedFrame} {w₁ : World}
      → get_elem? w i ≡ some a
      → encrypt_frame c w i f now ≡ some (ok enc, w₁)
      → (ct : Bytes) × (a.send_nonce < 2 ^ 64)
        × (c.seal a.send_key (nonce_bytes a.send_nonce) f.payload (frame_data f.frame_id) ≡ some ct)
        × (enc ≡ wire f ct)
        × (w₁ ≡ set w i (record a { send_nonce = a.send_nonce + 1; last_activity = now }))
  unfolding encrypt_frame
  encrypted_from w i a f now ea e = elim (encrypt_frame_cases c a f now) [
    | inl (ct, n, sealed, q) ↦ (ct, n, sealed, ground arith, ground arith)
    | inr (x, q) ↦ absurd (ground arith)
  ]

  decrypted_by :
      (w : World) (j : ℕ) (b : PqcSession) (enc : EncryptedFrame) (now : ℕ) {m : Bytes}
      {b' : PqcSession}
      → get_elem? w j ≡ some b
      → Frames.decrypt_frame c b enc now ≡ (ok m, b')
      → decrypt_frame c w j enc now ≡ some (ok m, set w j b')
  unfolding decrypt_frame
  decrypted_by w j b enc now eb e = ground arith

module _ (c : Crypto) (h : IsAead c) {F : Type 0} where
  -- With a correct cipher, for two linked sessions that are different objects of the store: a frame
  -- that one encrypts, the other decrypts to its payload; both have then moved on by one and are
  -- linked again, and no other session has changed.
  pub exchange_frame :
      (w : World) (i j : ℕ) (a b : PqcSession) (f : TelemetryFrame F) (sent received : ℕ)
      {enc : EncryptedFrame} {w₁ : World}
      → i ≢ j
      → get_elem? w i ≡ some a
      → get_elem? w j ≡ some b
      → IsLinked a b
      → encrypt_frame c w i f sent ≡ some (ok enc, w₁)
      → (w₂ : World) × (a' : PqcSession) × (b' : PqcSession) × (decrypt_frame c w₁ j enc received
          ≡ some (ok f.payload, w₂))
        × (get_elem? w₂ i ≡ some a')
        × (get_elem? w₂ j ≡ some b')
        × IsLinked a' b'
        × (a'.send_nonce ≡ a.send_nonce + 1)
        × (w₂ ≡ set (set w i a') j b')
  exchange_frame w i j a b f sent received ne ea eb l e =
      let (ct, n, sealed, ew, same) = encrypted_from c w i a f sent ea e in
      let a' : PqcSession = record a { send_nonce = a.send_nonce + 1; last_activity = sent } in
      let b' : PqcSession = record b { recv_nonce = b.recv_nonce + 1; last_activity = received } in
      let there : get_elem? (set w i a') j ≡ some b = get_elem?-set_ne w a' ne ∙ eb in
      (
        set (set w i a') j b',
        a',
        b',
        rw (ew, same)
            (decrypted_by c _ j b _ received there
              (decrypt_frame-wire c h a b f received l n sealed)),
        get_elem?-set_ne (set w i a') b' (λ q. ne (sym q))
            ∙ get_elem?-set_self w i a' (get_elem?-lt w i ea),
        get_elem?-set_self (set w i a') j b' (get_elem?-lt (set w i a') j there),
        record { keys = l.keys; counters = ap (λ (m : ℕ). m + 1) l.counters },
        refl,
        refl,
      )
