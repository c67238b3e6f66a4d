-- ===== src/Tests/Pqc.antt =====
-- The transport on concrete data, over the cipher of `Tests/Ciphers`.
use sovereign_edge_tee_agent.Base.{
  ℕ, ◌+◌, ◌^◌, ◌≤◌, ◌≡◌, ◌↔◌, refl, true, arith, Bytes, some, ◌++◌, List, [], ◌∷◌, map, set,
  get_elem?, length, le_bytes,
}
use sovereign_edge_tee_agent.Base.Utf8.{strip_prefix}
use sovereign_edge_tee_agent.Common.{TelemetryFrame, EncryptedFrame}
use sovereign_edge_tee_agent.Pqc.Error.{ok, err, nonce_exhausted}
use sovereign_edge_tee_agent.Pqc.Session.{PqcSession, nonce_bytes, encrypt, decrypt, is_expired}
use sovereign_edge_tee_agent.Pqc.Session.Nonces.{
  Distinct, encrypt_all, IsSealedUnder, encrypt_all-Distinct,
}
use sovereign_edge_tee_agent.Pqc.Frames
use sovereign_edge_tee_agent.Pqc.Frames.Delivery.{IsLinked, wire, transfer, transfer-IsLinked}
use sovereign_edge_tee_agent.Pqc.Frames.Rejection.{AllFailed, transfer_after_loss}
use sovereign_edge_tee_agent.Pqc.Kem.{HybridEncapsulation, generate}
use sovereign_edge_tee_agent.Pqc.Manager.{
  World, PqcTransportManager, establish_session, accept_session, encrypt_frame, decrypt_frame,
  retain, cleanup_expired, session_count,
}
use sovereign_edge_tee_agent.Pqc.Manager.Sessions.{with_session, establish-accept, exchange_frame}
use sovereign_edge_tee_agent.Pqc.Manager.Cleanup.{holds, cleanup_expired_lem}
use sovereign_edge_tee_agent.Pqc.Manager.Store.{State, IsOrderly}
use sovereign_edge_tee_agent.Pqc.Manager.Reach.{
  after, Reach, here, next, establishes, cleans, Keeps, Reach-Keeps,
}
use sovereign_edge_tee_agent.Tests.Ciphers.{
  plain, plain-IsAead, plain-IsSealing, plain-IsKeyExchange,
}
use sovereign_edge_tee_agent.Tests.Common.{frame}

abbrev pub alice : PqcSession
alice = record {
  session_id = 11;
  send_key = 1 ∷ [];
  recv_key = 2 ∷ [];
  send_nonce = 5;
  recv_nonce = 0;
  last_activity = 100;
}

abbrev pub bob : PqcSession
bob = record {
  session_id = 12;
  send_key = 2 ∷ [];
  recv_key = 1 ∷ [];
  send_nonce = 0;
  recv_nonce = 5;
  last_activity = 100;
}

abbrev late_bob : PqcSession
late_bob = record bob { recv_nonce = 4 }

pub linked : IsLinked alice bob
linked = record { keys = refl; counters = refl }

abbrev stream : List (TelemetryFrame ℕ × ℕ × ℕ)
stream = (frame 1 3, 200, 210) ∷ (frame 2 0, 300, 301) ∷ []

-- The limit is hard: the call fails and nothing changes.
exhausted :
    encrypt plain (record alice { send_nonce = 2 ^ 64 }) [] [] 9
    ≡ (err (nonce_exhausted 11), record alice { send_nonce = 2 ^ 64 })
unfolding encrypt
exhausted = refl

stream-run : (transfer plain alice bob stream).0 ≡ ok (1 ∷ 1 ∷ 1 ∷ []) ∷ ok [] ∷ []
unfolding transfer Frames.encrypt_frame Frames.decrypt_frame encrypt decrypt strip_prefix
    nonce_bytes le_bytes
stream-run = refl

abbrev calls : List (Bytes × Bytes × ℕ)
calls = (7 ∷ [], [], 1) ∷ (8 ∷ [], 9 ∷ [], 2) ∷ []

encrypt_all-Distinct_example :
    (ns : List Bytes) × IsSealedUnder plain alice.send_key calls
      (encrypt_all plain alice calls).0
      ns
    × Distinct ns
    × ((encrypt_all plain alice calls).1.send_nonce ≡ alice.send_nonce + length ns)
encrypt_all-Distinct_example = encrypt_all-Distinct plain alice calls

transfer-IsLinked_example : (transfer plain alice bob stream).0 ≡ map (λ x. ok (x.0.payload)) stream
transfer-IsLinked_example =
    transfer-IsLinked plain plain-IsAead plain-IsSealing alice bob stream linked (omega arith)
      (omega arith)

transfer_after_loss_example :
    AllFailed (transfer plain alice late_bob stream).0
    × ((transfer plain alice late_bob stream).1 ≡ late_bob)
transfer_after_loss_example =
    transfer_after_loss plain plain-IsAead alice late_bob stream refl (omega arith) (omega arith)

abbrev sent_frame : EncryptedFrame
sent_frame = wire (frame 1 3) (
    12 ∷ 5 ∷ 0 ∷ 0 ∷ 0 ∷ 0 ∷ 0 ∷ 0 ∷ 0 ∷ 0 ∷ 0 ∷ 0 ∷ 0 ∷ 8 ∷ 1 ∷ 0 ∷ 0 ∷ 0 ∷ 0 ∷ 0 ∷ 0 ∷ 0 ∷ 1 ∷ 1
    ∷ 1 ∷ [])

sent : (Frames.encrypt_frame plain alice (frame 1 3) 200).0 ≡ ok sent_frame
unfolding Frames.encrypt_frame encrypt nonce_bytes le_bytes
sent = refl

abbrev manager : PqcTransportManager
manager = record { sessions = 0 ∷ 1 ∷ []; session_timeout_nanos = 50 }

abbrev world : World
world = alice ∷ bob ∷ []

establish-accept_example :
    let k = generate plain (3 ∷ []) (4 ∷ []) in
    (e : HybridEncapsulation) × (a : PqcSession) × (b : PqcSession) × (establish_session plain world
        manager k.local_public
        (5 ∷ [])
        (6 ∷ [])
        21
        300
      ≡ (ok (2, e), world ++ (a ∷ []), with_session manager 2))
    × (accept_session plain [] manager k e 22 310 ≡ (ok 0, [] ++ (b ∷ []), with_session manager 0))
    × IsLinked a b
    × IsLinked b a
establish-accept_example =
    establish-accept plain plain-IsKeyExchange world [] manager manager (3 ∷ []) (4 ∷ []) (5 ∷ [])
      (6 ∷ []) 21 22 300 310

abbrev world₁ : World
world₁ = record alice { send_nonce = 6; last_activity = 200 } ∷ bob ∷ []

sent_from_store : encrypt_frame plain world 0 (frame 1 3) 200 ≡ some (ok sent_frame, world₁)
unfolding encrypt_frame Frames.encrypt_frame encrypt nonce_bytes le_bytes
sent_from_store = refl

exchange_frame_example :
    (w₂ : World) × (a' : PqcSession) × (b' : PqcSession) × (decrypt_frame plain world₁ 1 sent_frame
        210
      ≡ some (ok (1 ∷ 1 ∷ 1 ∷ []), w₂))
    × (get_elem? w₂ 0 ≡ some a')
    × (get_elem? w₂ 1 ≡ some b')
    × IsLinked a' b'
    × (a'.send_nonce ≡ 6)
    × (w₂ ≡ set (set world 0 a') 1 b')
exchange_frame_example =
    exchange_frame plain plain-IsAead world 0 1 alice bob (frame 1 3) 200 210 (omega arith) refl
      refl linked sent_from_store

cleanup_expired_lem_example :
    let (removed, m') = cleanup_expired world manager (λ _. 160) in
    (removed + session_count m' ≡ session_count manager)
    × ((holds m'.sessions 0 ≡ true) ↔ (
        (holds manager.sessions 0 ≡ true)
        × (160 ≤ alice.last_activity + manager.session_timeout_nanos)))
    × ((other : ℕ) → holds m'.sessions other ≡ true → holds manager.sessions other ≡ true)
    × (m'.session_timeout_nanos ≡ manager.session_timeout_nanos)
cleanup_expired_lem_example = cleanup_expired_lem world manager (λ _. 160) 0 alice refl

-- Both sessions have been idle for 60 ns under a timeout of 50 ns.
cleanup-run : (cleanup_expired world manager (λ _. 160)).0 ≡ 2
unfolding cleanup_expired is_expired retain
cleanup-run = refl

sealed_now :
    (encrypt plain alice (7 ∷ []) [] 200).0
    ≡ ok (12 ∷ 5 ∷ 0 ∷ 0 ∷ 0 ∷ 0 ∷ 0 ∷ 0 ∷ 0 ∷ 0 ∷ 0 ∷ 0 ∷ 0 ∷ 0 ∷ 7 ∷ [])
unfolding encrypt nonce_bytes le_bytes
sealed_now = refl

abbrev later : State
later = after (
    establish_session plain world manager (generate plain (3 ∷ []) (4 ∷ [])).local_public (5 ∷ [])
      (6 ∷ []) 21 300)

abbrev cleaned : State
cleaned = (later.0, (cleanup_expired later.0 later.1 (λ arc. 320)).1)

past : Reach plain ℕ (world, manager) cleaned
past = next (next here (establishes _ _ _ 21 300)) (cleans (λ arc. 320))

orderly : IsOrderly (world, manager)
orderly = (omega arith, (omega arith, omega arith))

Reach-Keeps_example : Keeps plain ℕ (world, manager) cleaned
Reach-Keeps_example = Reach-Keeps plain ℕ (world, manager) cleaned past orderly
