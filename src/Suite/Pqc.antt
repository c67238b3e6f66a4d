-- ===== src/Suite/Pqc.antt =====
-- The tests of crates/pqc-transport/src/lib.rs, with every random input and every reading of the clock as an argument.
pub mod Passes
use sovereign_edge_tee_agent.Base.{
  ℕ, suc, zero, Bytes, text, bytes_eq, Bool, true, false, not, ◌&&◌, [], ◌∷◌, Option, none, some,
  ◌==◌, length, replicate,
}
use sovereign_edge_tee_agent.Base.Options.{◌>>=◌}
use sovereign_edge_tee_agent.Common.{TelemetryFrame, default_metadata}
use sovereign_edge_tee_agent.Pqc.Crypto.{Crypto}
use sovereign_edge_tee_agent.Pqc.Kem.{
  HybridKem, generate, encapsulate_to_peer, decapsulate_from_peer,
}
use sovereign_edge_tee_agent.Pqc.Manager
use sovereign_edge_tee_agent.Pqc.Manager.{
  World, PqcTransportManager, establish_session, accept_session, encrypt_frame, decrypt_frame,
  cleanup_expired, session_count,
}
use sovereign_edge_tee_agent.Suite.Checks.{unwrap, is_empty}

-- The randomness of a key pair, and that of an encapsulation.
pub record Seeds : Type 0 where
  pub secret : Bytes
  pub random : Bytes
  pub eph_secret : Bytes
  pub eph_random : Bytes

module _ (c : Crypto) where
  kem_of : Seeds → HybridKem
  kem_of r = generate c r.secret r.random

  -- 64 is MLKEM768_SEED_SIZE.
  unfoldable pub test_hybrid_keygen : Seeds → Bool
  unfolding kem_of
  test_hybrid_keygen r =
      let kem = kem_of r in
      not (is_empty kem.local_public.mlkem_pubkey) && (length kem.local_secret.mlkem_seed == 64)

  unfoldable pub test_hybrid_key_exchange_roundtrip : Seeds → Option Bool
  unfolding kem_of
  test_hybrid_key_exchange_roundtrip r = do
    let bob = kem_of r
    (encapsulation, alice_shared) ←
        unwrap (encapsulate_to_peer c bob.local_public r.eph_secret r.eph_random)
    bob_shared ← unwrap (decapsulate_from_peer c bob encapsulation)
    some (bytes_eq alice_shared bob_shared)

  -- The loop of the benchmark, with the randomness of each of its rounds.
  unfoldable pub bench_mlkem_roundtrip : ℕ → (ℕ → Seeds) → Option Bool
  bench_mlkem_roundtrip zero r = some true
  bench_mlkem_roundtrip (suc iters) r = do
    same ← test_hybrid_key_exchange_roundtrip (r iters)
    others ← bench_mlkem_roundtrip iters r
    some (same && others)

  unfoldable pub test_session_creation : Seeds → ℕ → ℕ → Option Bool
  unfolding kem_of
  test_session_creation r id now = do
    let (made, w, m) =
        establish_session c [] (Manager.new 300) (kem_of r).local_public r.eph_secret r.eph_random
          id now
    _ ← unwrap made
    some true

module _ {F : Type 0} where
  -- The frame of two of the tests, with its payload.
  abbrev pub edge_frame : Bytes → TelemetryFrame F
  edge_frame payload = record {
    frame_id = 1;
    source_ip = text "10.0.0.1";
    dest_ip = none;
    timestamp_ns = 0;
    payload = payload;
    metadata = default_metadata;
  }

abbrev pub greeting : Bytes
greeting = text "hello from the edge"

module _ (c : Crypto) (F : Type 0) where
  -- Alice's and Bob's sessions under one manager, at two times.
  unfoldable pub both_sessions :
      Seeds → ℕ → ℕ → ℕ → ℕ → Option (ℕ × ℕ × World × PqcTransportManager)
  unfolding kem_of
  both_sessions r i j s t = do
    let bob = kem_of c r
    let (made, w, m) =
        establish_session c [] (Manager.new 300) bob.local_public r.eph_secret r.eph_random i s
    (alice_session, encapsulation) ← unwrap made
    let (accepted, w', m') = accept_session c w m bob encapsulation j t
    bob_session ← unwrap accepted
    some (alice_session, bob_session, w', m')

  -- One frame from a session to another; a session that is no object of the store would be a panic here.
  unfoldable pub exchange : ℕ → ℕ → World → Bytes → ℕ → ℕ → Option (Bytes × World)
  exchange alice bob w payload sent received = do
    (encrypted, w') ← encrypt_frame c w alice (edge_frame {F = F} payload) sent
    frame ← unwrap encrypted
    (decrypted, w'') ← decrypt_frame c w' bob frame received
    plaintext ← unwrap decrypted
    some (plaintext, w'')

  unfoldable pub test_session_roundtrip : Seeds → ℕ → ℕ → ℕ → ℕ → ℕ → ℕ → Option Bool
  test_session_roundtrip r i j s t sent received = do
    (alice_session, bob_session, w, m) ← both_sessions r i j s t
    (decrypted, w') ← exchange alice_session bob_session w greeting sent received
    some (bytes_eq decrypted greeting)

  -- The loop of the benchmark: each round encrypts and decrypts, at its two times.
  unfoldable pub exchanges : ℕ → ℕ → ℕ → World → Bytes → (ℕ → ℕ) → (ℕ → ℕ) → Option World
  exchanges zero alice bob w payload sent received = some w
  exchanges (suc rounds) alice bob w payload sent received = do
    (decrypted, w') ← exchange alice bob w payload (sent rounds) (received rounds)
    exchanges rounds alice bob w' payload sent received

  unfoldable pub bench_aes_encrypt_decrypt :
      ℕ → Seeds → ℕ → ℕ → ℕ → ℕ → (ℕ → ℕ) → (ℕ → ℕ) → Option Bool
  bench_aes_encrypt_decrypt iters r i j s t sent received = do
    (alice_session, bob_session, w, m) ← both_sessions r i j s t
    _ ← exchanges iters alice_session bob_session w (replicate 1024 0) sent received
    some true

module _ (c : Crypto) where
  unfoldable pub test_session_cleanup : Seeds → ℕ → ℕ → (ℕ → ℕ) → Option Bool
  unfolding kem_of
  test_session_cleanup r id now clock = do
    let (made, w, m) =
        establish_session c [] (Manager.new 300) (kem_of c r).local_public r.eph_secret r.eph_random
          id now
    _ ← unwrap made
    let before = session_count m == 1
    let (removed, m') = cleanup_expired w m clock
    some (before && ((removed == 0) && (session_count m' == 1)))
