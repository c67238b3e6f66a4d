-- ===== src/Suite/Pqc/Passes.antt =====
-- The tests of the transport pass with any correct cipher and key exchange, whatever is drawn at random.
use sovereign_edge_tee_agent.Base.{
  ℕ, zero, suc, ◌+◌, ◌-◌, ◌*◌, ◌^◌, ◌≤◌, ◌<◌, ◌≡◌, refl, ap, arith, Bytes, bytes_eq_refl, true, [],
  ◌∷◌, some, length, replicate, length-replicate, le_bytes,
}
use sovereign_edge_tee_agent.Common.{TelemetryFrame}
use sovereign_edge_tee_agent.Pqc.Crypto.{Crypto, IsAead, IsSealing, IsKeyExchange}
use sovereign_edge_tee_agent.Pqc.Session.{PqcSession, nonce_bytes, is_expired}
use sovereign_edge_tee_agent.Pqc.Frames.{frame_data}
use sovereign_edge_tee_agent.Pqc.Frames.Delivery.{IsLinked, encrypt_frame-seal, decrypt_frame-wire}
use sovereign_edge_tee_agent.Pqc.Kem.{generate}
use sovereign_edge_tee_agent.Pqc.Kem.Agreement.{decapsulate-encapsulate_to_peer}
use sovereign_edge_tee_agent.Pqc.Manager
use sovereign_edge_tee_agent.Pqc.Manager.{
  World, PqcTransportManager, encrypt_frame, decrypt_frame, cleanup_expired, retain, session_count,
}
use sovereign_edge_tee_agent.Pqc.Manager.Sessions.{with_session, establish-accept_later}
use sovereign_edge_tee_agent.Suite.Checks.{is_empty-length}
use sovereign_edge_tee_agent.Suite.Pqc.{
  Seeds, edge_frame, greeting, test_hybrid_key_exchange_roundtrip, bench_mlkem_roundtrip,
  test_session_creation, test_hybrid_keygen, both_sessions, exchange, exchanges,
  test_session_roundtrip, bench_aes_encrypt_decrypt, test_session_cleanup,
}

module _ (c : Crypto) (k : IsKeyExchange c) where
  test_hybrid_key_exchange_roundtrip_passes :
      (r : Seeds) → test_hybrid_key_exchange_roundtrip c r ≡ some true
  unfolding test_hybrid_key_exchange_roundtrip
  test_hybrid_key_exchange_roundtrip_passes r =
      let (e, key, sent, received) =
        decapsulate-encapsulate_to_peer c k r.secret r.random r.eph_secret r.eph_random in
      rw (sent, received) (ap some (bytes_eq_refl key))

  bench_mlkem_roundtrip_passes :
      (iters : ℕ) (r : ℕ → Seeds) → bench_mlkem_roundtrip c iters r ≡ some true
  unfolding bench_mlkem_roundtrip
  bench_mlkem_roundtrip_passes zero r = refl
  bench_mlkem_roundtrip_passes (suc iters) r =
      rw (test_hybrid_key_exchange_roundtrip_passes (r iters), bench_mlkem_roundtrip_passes iters r)
        refl

  both_sessions_lem :
      (F : Type 0) (r : Seeds) (i j s t : ℕ)
      → (a : PqcSession) × (b : PqcSession) × (m : PqcTransportManager) × (both_sessions c F r i j s
            t
          ≡ some (0, 1, a ∷ b ∷ [], m))
        × IsLinked a b
        × (a.send_nonce ≡ 0)
  unfolding both_sessions
  both_sessions_lem F r i j s t =
      let m = Manager.new 300 in
      let (e, a, made, fresh, _, accepts) =
        establish-accept_later c k [] m r.secret r.random r.eph_secret r.eph_random i s in
      let (b, accepted, linked, _) = accepts (a ∷ []) (with_session m 0) j t in
      (a, b, with_session (with_session m 0) 1, rw (made, accepted) refl, linked, fresh)

module _ (c : Crypto) (h : IsAead c) (l : IsSealing c) (F : Type 0) where
  exchange_lem :
      (a b : PqcSession) (payload : Bytes) (sent received : ℕ)
      → IsLinked a b
      → a.send_nonce < 2 ^ 64
      → length payload ≤ 2 ^ 36 - 32
      → exchange c F 0 1 (a ∷ b ∷ []) payload sent received
        ≡ some (
          payload,
          record a { send_nonce = a.send_nonce + 1; last_activity = sent }
              ∷ record b { recv_nonce = b.recv_nonce + 1; last_activity = received }
              ∷ [],
        )
  unfolding exchange encrypt_frame decrypt_frame le_bytes
  exchange_lem a b payload sent received linked room small =
      let f : TelemetryFrame F = edge_frame payload in
      let (ct, sealed) =
        l.seal-some a.send_key (nonce_bytes a.send_nonce) payload (frame_data 1) small
          (omega arith) in
      rw
        (
          encrypt_frame-seal c a f sent room sealed,
          decrypt_frame-wire c h a b f received linked room sealed,
        )
        refl

  exchanges_lem :
      (n : ℕ) (a b : PqcSession) (payload : Bytes) (sent received : ℕ → ℕ)
      → IsLinked a b
      → a.send_nonce + n ≤ 2 ^ 64
      → length payload ≤ 2 ^ 36 - 32
      → (w : World) × (exchanges c F n 0 1 (a ∷ b ∷ []) payload sent received ≡ some w)
  unfolding exchanges
  exchanges_lem zero a b payload sent received linked room small = (_, refl)
  exchanges_lem (suc n) a b payload sent received linked room small =
      rw (exchange_lem a b payload (sent n) (received n) linked (omega arith) small) (
        exchanges_lem n _ _ payload sent received
          (record { keys = linked.keys; counters = ap (λ (m : ℕ). m + 1) linked.counters })
          (omega arith) small)

module _ (c : Crypto) (h : IsAead c) (l : IsSealing c) (k : IsKeyExchange c) (F : Type 0) where
  -- With a correct cipher and key exchange: the test that sets up a session between two parties under one manager and
  -- sends a frame over it passes, whatever the randomness, the session ids and the times are.
  test_session_roundtrip_passes :
      (r : Seeds) (i j s t sent received : ℕ)
      → test_session_roundtrip c F r i j s t sent received ≡ some true
  unfolding test_session_roundtrip
  test_session_roundtrip_passes r i j s t sent received =
      let (a, b, m, made, linked, fresh) = both_sessions_lem c k F r i j s t in
      rw (made, exchange_lem c h l F a b greeting sent received linked (omega arith) (omega arith))
        (ap some (bytes_eq_refl greeting))

  bench_aes_encrypt_decrypt_passes :
      (iters : ℕ) (r : Seeds) (i j s t : ℕ) (sent received : ℕ → ℕ)
      → iters ≤ 2 ^ 64
      → bench_aes_encrypt_decrypt c F iters r i j s t sent received ≡ some true
  unfolding bench_aes_encrypt_decrypt
  bench_aes_encrypt_decrypt_passes iters r i j s t sent received few =
      let (a, b, m, made, linked, fresh) = both_sessions_lem c k F r i j s t in
      let (w, ran) =
        exchanges_lem c h l F iters a b (replicate 1024 0) sent received linked (omega arith)
          (omega (arith, length-replicate {0} 1024)) in
      rw (made, ran) refl

module _ (c : Crypto) (k : IsKeyExchange c) where
  test_session_creation_passes : (r : Seeds) (i s : ℕ) → test_session_creation c r i s ≡ some true
  unfolding test_session_creation
  test_session_creation_passes r i s =
      let (e, a, made, _, _, _) =
        establish-accept_later c k [] (Manager.new 300) r.secret r.random r.eph_secret r.eph_random
          i s in
      rw made refl

  -- The session is looked at within 300 seconds of its creation.
  test_session_cleanup_passes :
      (r : Seeds) (i s : ℕ) (clock : ℕ → ℕ)
      → clock 0 - s ≤ 300 * 1_000_000_000
      → test_session_cleanup c r i s clock ≡ some true
  unfolding test_session_cleanup cleanup_expired retain session_count is_expired Manager.new
  test_session_cleanup_passes r i s clock soon =
      let (e, a, made, _, active, _) =
        establish-accept_later c k [] (Manager.new 300) r.secret r.random r.eph_secret r.eph_random
          i s in
      rw made (ground (arith, active))

  -- The seed of ML-KEM has 64 bytes, and its keys some.
  test_hybrid_keygen_passes :
      (r : Seeds)
      → length (c.mlkem_keypair r.random).0 ≡ 64
      → 0 < c.mlkem_key_size
      → test_hybrid_keygen c r ≡ true
  unfolding test_hybrid_keygen generate
  test_hybrid_keygen_passes r seed some_key =
      rw (seed, is_empty-length (c.mlkem_keypair r.random).1 (omega (arith, k.key_size r.random)))
        refl
