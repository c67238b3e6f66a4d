-- ===== src/Pqc/Manager.antt =====
-- `PqcTransportManager` of crates/pqc-transport/src/lib.rs. A session is shared (`Arc<Mutex<…>>`)
-- between its caller and the manager: the store `World` holds the sessions, and an `Arc` is an index
-- into it. The clock and all randomness are inputs.
pub mod Sessions
pub mod Cleanup
pub mod Store
pub mod Reach
use sovereign_edge_tee_agent.Base.{
  ℕ, ◌+◌, ◌-◌, ◌*◌, ◌%◌, ◌^◌, Bytes, text, Bool, true, not, List, [], ◌∷◌, ◌++◌,
}
use sovereign_edge_tee_agent.Base.{
  Option, none, some, length, get_elem?, set, replicate, if◌then◌else◌,
}
use sovereign_edge_tee_agent.Common.{TelemetryFrame, EncryptedFrame}
use sovereign_edge_tee_agent.Pqc.Error.{Result, ok, err}
use sovereign_edge_tee_agent.Pqc.Crypto.{Crypto}
use sovereign_edge_tee_agent.Pqc.Session
use sovereign_edge_tee_agent.Pqc.Session.{PqcSession, is_expired}
use sovereign_edge_tee_agent.Pqc.Frames
use sovereign_edge_tee_agent.Pqc.Kem.{
  HybridKem, HybridPublicKey, HybridEncapsulation, encapsulate_to_peer, decapsulate_from_peer,
}

-- Every session that was created, by the number of its `Arc`.
abbrev pub World : Type 0
World = List PqcSession

pub record PqcTransportManager : Type 0 where
  pub sessions : List ℕ
  pub session_timeout_nanos : ℕ

unfoldable pub new : ℕ → PqcTransportManager
new session_timeout_secs = record {
  sessions = [];
  session_timeout_nanos = session_timeout_secs * 1_000_000_000 % 2 ^ 64;
}

-- The 64 bytes of `send_key_material` or `recv_key_material`.
abbrev pub key_material : Bytes → Bytes → Bytes
key_material shared_key label = shared_key ++ (label ++ replicate 28 0)

-- `Arc::new(Mutex::new(session))`, and the push of its clone.
abbrev add_session : World → PqcTransportManager → PqcSession → World × PqcTransportManager × ℕ
add_session w m s = (w ++ (s ∷ []), record m { sessions = m.sessions ++ (length w ∷ []) }, length w)

module _ (c : Crypto) where
  -- The result carries the new session's `Arc`; on an error nothing is added.
  unfoldable pub establish_session :
      World
      → PqcTransportManager
      → HybridPublicKey
      → Bytes
      → Bytes
      → ℕ
      → ℕ
      → Result (ℕ × HybridEncapsulation) × World × PqcTransportManager
  establish_session w m remote_public eph_secret random session_id now =
      elim (encapsulate_to_peer c remote_public eph_secret random) [
        | err e ↦ (err e, w, m)
        | ok (encapsulation, shared_key) ↦
            let send_key = c.sha256 (key_material shared_key (text "SEND")) in
            let recv_key = c.sha256 (key_material shared_key (text "RECV")) in
            let (w', m', arc) = add_session w m (Session.new send_key recv_key session_id now) in
            (ok (arc, encapsulation), w', m')
      ]

  unfoldable pub accept_session :
      World
      → PqcTransportManager
      → HybridKem
      → HybridEncapsulation
      → ℕ
      → ℕ
      → Result ℕ × World × PqcTransportManager
  accept_session w m local_kem encapsulation session_id now =
      elim (decapsulate_from_peer c local_kem encapsulation) [
        | err e ↦ (err e, w, m)
        | ok shared_key ↦
            let recv_key = c.sha256 (key_material shared_key (text "SEND")) in
            let send_key = c.sha256 (key_material shared_key (text "RECV")) in
            let (w', m', arc) = add_session w m (Session.new send_key recv_key session_id now) in
            (ok arc, w', m')
      ]

  -- `none` is an index of no session, which an `Arc` never is.
  unfoldable pub encrypt_frame :
      {F : Type 0} → World → ℕ → TelemetryFrame F → ℕ → Option (Result EncryptedFrame × World)
  encrypt_frame w arc frame now = elim (get_elem? w arc) [
    | none ↦ none
    | some s ↦ let (r, s') = Frames.encrypt_frame c s frame now in some (r, set w arc s')
  ]

  unfoldable pub decrypt_frame : World → ℕ → EncryptedFrame → ℕ → Option (Result Bytes × World)
  decrypt_frame w arc encrypted now = elim (get_elem? w arc) [
    | none ↦ none
    | some s ↦ let (r, s') = Frames.decrypt_frame c s encrypted now in some (r, set w arc s')
  ]

-- The test of `retain`; `clock arc` is the time that is read when that session is looked at.
abbrev pub is_kept : World → ℕ → (ℕ → ℕ) → ℕ → Bool
is_kept w timeout clock arc = elim (get_elem? w arc) [
  | none ↦ true
  | some s ↦ not (is_expired s timeout (clock arc))
]

unfoldable pub retain : {A : Type 0} → (A → Bool) → List A → List A
retain keep [] = []
retain keep (x ∷ xs) = if keep x then x ∷ retain keep xs else retain keep xs

unfoldable pub cleanup_expired : World → PqcTransportManager → (ℕ → ℕ) → ℕ × PqcTransportManager
cleanup_expired w m clock =
    let initial_count = length m.sessions in
    let kept = retain (is_kept w m.session_timeout_nanos clock) m.sessions in
    (initial_count - length kept, record m { sessions = kept })

unfoldable pub session_count : PqcTransportManager → ℕ
session_count m = length m.sessions
