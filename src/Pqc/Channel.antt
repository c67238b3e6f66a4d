-- ===== src/Pqc/Channel.antt =====
-- The frame methods of crates/pqc-transport/src/lib.rs over a network that an adversary runs: it holds every frame that
-- was sent, and delivers what it likes, as often and in what order it likes, with a frame id of its choice.
pub mod Moves
pub mod Orderly
pub mod Order
use sovereign_edge_tee_agent.Base.{ℕ, Bytes, List, [], ◌∷◌, ◌++◌, none, some, get_elem?}
use sovereign_edge_tee_agent.Common.{TelemetryFrame, EncryptedFrame}
use sovereign_edge_tee_agent.Pqc.Error.{ok, err}
use sovereign_edge_tee_agent.Pqc.Crypto.{Crypto}
use sovereign_edge_tee_agent.Pqc.Session.{PqcSession}
use sovereign_edge_tee_agent.Pqc.Frames.{encrypt_frame, decrypt_frame}

-- The sender, the receiver, what was sent with its frame on the wire, and the payloads that the receiver accepted.
pub record Channel (F : Type 0) : Type 0 where
  pub sender : PqcSession
  pub receiver : PqcSession
  pub sent : List (TelemetryFrame F × EncryptedFrame)
  pub accepted : List Bytes

abbrev pub opened : {F : Type 0} → PqcSession → PqcSession → Channel F
opened a b = record { sender = a; receiver = b; sent = []; accepted = [] }

-- The sender sends a frame at a time; or the network delivers what was sent under a number, with a frame id.
pub data Move (F : Type 0) : Type 0 where
  sends : TelemetryFrame F → ℕ → Move F
  delivers : ℕ → ℕ → ℕ → Move F

module _ (c : Crypto) {F : Type 0} where
  unfoldable pub send : Channel F → TelemetryFrame F → ℕ → Channel F
  send ch f now =
      let (r, a) = encrypt_frame c ch.sender f now in
      elim r [
        | ok w ↦ record ch { sender = a; sent = ch.sent ++ ((f, w) ∷ []) }
        | err e ↦ record ch { sender = a }
      ]

  unfoldable pub receive : Channel F → EncryptedFrame → ℕ → Channel F
  receive ch w now =
      let (r, b) = decrypt_frame c ch.receiver w now in
      elim r [
        | ok payload ↦ record ch { receiver = b; accepted = ch.accepted ++ (payload ∷ []) }
        | err e ↦ record ch { receiver = b }
      ]

  unfoldable pub move : Channel F → Move F → Channel F
  move ch (sends f now) = send ch f now
  move ch (delivers i id now) = elim (get_elem? ch.sent i) [
    | none ↦ ch
    | some (f, w) ↦ receive ch (record w { frame_id = id }) now
  ]

  unfoldable pub run : Channel F → List (Move F) → Channel F
  run ch [] = ch
  run ch (m ∷ ms) = run (move ch m) ms
