-- ===== src/Tests/Channel.antt =====
-- A channel on concrete data: a replay, a change of an id, a frame that overtakes another, and what is left.
use sovereign_edge_tee_agent.Base.{ℕ, ◌≡◌, ◌≤◌, refl, arith, List, [], ◌∷◌, length, take, le_bytes}
use sovereign_edge_tee_agent.Base.Utf8.{strip_prefix}
use sovereign_edge_tee_agent.Pqc.Session.{nonce_bytes, encrypt, decrypt}
use sovereign_edge_tee_agent.Pqc.Frames
use sovereign_edge_tee_agent.Pqc.Channel.{
  Channel, opened, Move, sends, delivers, send, receive, move, run,
}
use sovereign_edge_tee_agent.Pqc.Channel.Orderly.{payloads, IdsFit}
use sovereign_edge_tee_agent.Pqc.Channel.Order.{run-prefix}
use sovereign_edge_tee_agent.Tests.Ciphers.{plain, plain-IsAead}
use sovereign_edge_tee_agent.Tests.Common.{frame}
use sovereign_edge_tee_agent.Tests.Pqc.{alice, bob, linked}

abbrev attack : List (Move ℕ)
attack =
    sends (frame 1 3) 10
    ∷ sends (frame 2 1) 11
    ∷ sends (frame 3 2) 12
    ∷ delivers 1 2 13
    ∷ delivers 0 9 14
    ∷ delivers 0 1 15
    ∷ delivers 0 1 16
    ∷ delivers 7 1 17
    ∷ []

attacked : Channel ℕ
attacked = run plain (opened alice bob) attack

one_accepted : attacked.accepted ≡ (1 ∷ 1 ∷ 1 ∷ []) ∷ []
unfolding attacked run move send receive Frames.encrypt_frame Frames.decrypt_frame encrypt decrypt
    strip_prefix nonce_bytes le_bytes
one_accepted = refl

ids : IdsFit attack
ids = omega arith

run-prefix_example :
    (length attacked.accepted ≤ length attacked.sent)
    × (attacked.accepted ≡ take (length attacked.accepted) (payloads attacked.sent))
unfolding attacked
run-prefix_example = run-prefix plain plain-IsAead alice bob attack linked (omega arith) ids
