-- ===== src/Pqc/Network.antt =====
-- Two machines that run the manager of crates/pqc-transport/src/lib.rs, each with all its sessions and calls, and an
-- adversary's network between them: a session that one establishes and the other accepts, and what is sent over it.
pub mod Calls
pub mod Secure
pub mod Handshake
pub mod Recovery
use sovereign_edge_tee_agent.Base.{
  ℕ, Bytes, List, [], ◌∷◌, ◌++◌, Option, none, some, get_elem?, ◌≢◌, ◌<◌, ◌^◌,
}
use sovereign_edge_tee_agent.Common.{TelemetryFrame, EncryptedFrame}
use sovereign_edge_tee_agent.Pqc.Error.{ok, err}
use sovereign_edge_tee_agent.Pqc.Crypto.{Crypto}
use sovereign_edge_tee_agent.Pqc.Kem.{HybridKem, HybridPublicKey, HybridEncapsulation}
use sovereign_edge_tee_agent.Pqc.Manager.{
  establish_session, accept_session, encrypt_frame, decrypt_frame, cleanup_expired,
}
use sovereign_edge_tee_agent.Pqc.Manager.Store.{State}
use sovereign_edge_tee_agent.Pqc.Manager.Reach.{after}

-- Any call of a manager's methods; the session of a frame is the number of its `Arc`.
pub data Call (F : Type 0) : Type 0 where
  establish : HybridPublicKey → Bytes → Bytes → ℕ → ℕ → Call F
  accept : HybridKem → HybridEncapsulation → ℕ → ℕ → Call F
  encrypt : ℕ → TelemetryFrame F → ℕ → Call F
  decrypt : ℕ → EncryptedFrame → ℕ → Call F
  clean : (ℕ → ℕ) → Call F

-- Two machines, the numbers of the session on each, what was sent over it, and the payloads that were accepted.
pub record Network (F : Type 0) : Type 0 where
  pub near : State
  pub far : State
  pub near_arc : ℕ
  pub far_arc : ℕ
  pub sent : List (TelemetryFrame F × EncryptedFrame)
  pub accepted : List Bytes

-- The near machine sends a frame over the session, the network delivers one that was sent, with a frame id of its
-- choice, or a machine's program makes another call.
pub data Event (F : Type 0) : Type 0 where
  sends : TelemetryFrame F → ℕ → Event F
  delivers : ℕ → ℕ → ℕ → Event F
  near_calls : Call F → Event F
  far_calls : Call F → Event F

module _ (c : Crypto) {F : Type 0} where
  unfoldable pub call : State → Call F → State
  call s (establish remote eph_secret random id now) =
      after (establish_session c s.0 s.1 remote eph_secret random id now)
  call s (accept kem e id now) = after (accept_session c s.0 s.1 kem e id now)
  call s (encrypt arc f now) = elim (encrypt_frame c s.0 arc f now) [
    | none ↦ s
    | some (r, w) ↦ (w, s.1)
  ]
  call s (decrypt arc e now) = elim (decrypt_frame c s.0 arc e now) [
    | none ↦ s
    | some (r, w) ↦ (w, s.1)
  ]
  call s (clean clock) = (s.0, (cleanup_expired s.0 s.1 clock).1)

  unfoldable pub send : Network F → TelemetryFrame F → ℕ → Network F
  send n f now = elim (encrypt_frame c n.near.0 n.near_arc f now) [
    | none ↦ n
    | some (ok e, w) ↦ record n { near = (w, n.near.1); sent = n.sent ++ ((f, e) ∷ []) }
    | some (err x, w) ↦ record n { near = (w, n.near.1) }
  ]

  unfoldable pub receive : Network F → EncryptedFrame → ℕ → Network F
  receive n e now = elim (decrypt_frame c n.far.0 n.far_arc e now) [
    | none ↦ n
    | some (ok m, w) ↦ record n { far = (w, n.far.1); accepted = n.accepted ++ (m ∷ []) }
    | some (err x, w) ↦ record n { far = (w, n.far.1) }
  ]

  unfoldable pub step : Network F → Event F → Network F
  step n (sends f now) = send n f now
  step n (delivers i id now) = elim (get_elem? n.sent i) [
    | none ↦ n
    | some (f, e) ↦ receive n (record e { frame_id = id }) now
  ]
  step n (near_calls k) = record n { near = call n.near k }
  step n (far_calls k) = record n { far = call n.far k }

  unfoldable pub run : Network F → List (Event F) → Network F
  run n [] = n
  run n (e ∷ es) = run (step n e) es

  -- The near machine establishes a session to a public key, and the far one accepts it with its key pair; none where
  -- one of the two calls fails.
  unfoldable pub connect :
      State → State → HybridKem → Bytes → Bytes → ℕ → ℕ → ℕ → ℕ → Option (Network F)
  connect s t kem eph_secret random id now far_id far_now =
      let (made, w, m) = establish_session c s.0 s.1 kem.local_public eph_secret random id now in
      elim made [
        | err x ↦ none
        | ok (arc, e) ↦
            let (accepted, v, n) = accept_session c t.0 t.1 kem e far_id far_now in
            elim accepted [
              | err x ↦ none
              | ok far_arc ↦ some (record {
                near = (w, m);
                far = (v, n);
                near_arc = arc;
                far_arc = far_arc;
                sent = [];
                accepted = [];
              })
            ]
      ]

module _ {F : Type 0} where
  -- A call that sends nothing over a session, and one that delivers nothing over it.
  abbrev pub SendsNothing : ℕ → Call F → Type 0
  SendsNothing k (encrypt arc f now) = arc ≢ k
  SendsNothing k (establish remote s r i now) = Unit {0}
  SendsNothing k (accept kem e i now) = Unit {0}
  SendsNothing k (decrypt arc e now) = Unit {0}
  SendsNothing k (clean clock) = Unit {0}

  abbrev pub DeliversNothing : ℕ → Call F → Type 0
  DeliversNothing k (decrypt arc e now) = arc ≢ k
  DeliversNothing k (establish remote s r i now) = Unit {0}
  DeliversNothing k (accept kem e i now) = Unit {0}
  DeliversNothing k (encrypt arc f now) = Unit {0}
  DeliversNothing k (clean clock) = Unit {0}

  -- Frame ids are `u64`, and frames go over the session by the events `sends` and `delivers` alone: the near machine's
  -- other calls may still receive over it and the far one's send over it.
  abbrev pub IsFair : ℕ → ℕ → Event F → Type 0
  IsFair near far (sends f now) = f.frame_id < 2 ^ 64
  IsFair near far (delivers i id now) = id < 2 ^ 64
  IsFair near far (near_calls k) = SendsNothing near k
  IsFair near far (far_calls k) = DeliversNothing far k

  abbrev pub AllFair : ℕ → ℕ → List (Event F) → Type 0
  AllFair near far [] = Unit {0}
  AllFair near far (e ∷ es) = IsFair near far e × AllFair near far es
