-- ===== src/Tests/Network.antt =====
-- Two machines on concrete data: a handshake, frames that are lost, repeated and renamed, and calls in between.
use sovereign_edge_tee_agent.Base.{
  ℕ, ◌≡◌, ◌≤◌, refl, arith, Bytes, List, [], ◌∷◌, some, length, take, le_bytes, Option,
}
use sovereign_edge_tee_agent.Base.Options.{◌>>=◌}
use sovereign_edge_tee_agent.Base.Utf8.{strip_prefix}
use sovereign_edge_tee_agent.Pqc.Kem
use sovereign_edge_tee_agent.Pqc.Kem.{
  HybridKem, generate, encapsulate_to_peer, decapsulate_from_peer, combine,
}
use sovereign_edge_tee_agent.Pqc.Session
use sovereign_edge_tee_agent.Pqc.Session.{nonce_bytes}
use sovereign_edge_tee_agent.Pqc.Frames
use sovereign_edge_tee_agent.Pqc.Manager
use sovereign_edge_tee_agent.Pqc.Manager.{
  establish_session, accept_session, encrypt_frame, decrypt_frame, cleanup_expired,
}
use sovereign_edge_tee_agent.Pqc.Manager.Store.{State}
use sovereign_edge_tee_agent.Pqc.Channel.Orderly.{payloads}
use sovereign_edge_tee_agent.Pqc.Network.{
  Network, Event, establish, encrypt, clean, sends, delivers, near_calls, far_calls, call, send,
  receive, step, run, connect, AllFair,
}
use sovereign_edge_tee_agent.Pqc.Network.Handshake.{connect-prefix}
use sovereign_edge_tee_agent.Pqc.Network.Recovery.{redeliveries, pending, connect-recovers}
use sovereign_edge_tee_agent.Tests.Ciphers.{plain, plain-IsAead, plain-IsKeyExchange}
use sovereign_edge_tee_agent.Tests.Common.{frame}
use sovereign_edge_tee_agent.Tests.Pqc.{alice, bob}

abbrev near_machine : State
near_machine = (alice ∷ [], Manager.new 300)

abbrev far_machine : State
far_machine = (alice ∷ bob ∷ [], Manager.new 60)

abbrev key_pair : HybridKem
key_pair = generate plain (3 ∷ []) (4 ∷ [])

-- The second frame overtakes the first, which then arrives twice; the far machine answers over the session.
abbrev events : List (Event ℕ)
events =
    near_calls (establish key_pair.local_public (7 ∷ []) (8 ∷ []) 23 5)
    ∷ sends (frame 1 3) 10
    ∷ near_calls (encrypt 0 (frame 9 2) 11)
    ∷ sends (frame 2 1) 12
    ∷ far_calls (encrypt 2 (frame 5 4) 13)
    ∷ delivers 1 2 14
    ∷ delivers 0 7 15
    ∷ delivers 0 1 16
    ∷ delivers 0 1 17
    ∷ far_calls (clean (λ arc. 18))
    ∷ []

events-AllFair : AllFair 1 2 events
events-AllFair = (
  tt,
  (
    omega arith,
    (
      (λ e. cc e),
      (omega arith, (tt, (omega arith, (omega arith, (omega arith, (omega arith, (tt, tt))))))),
    ),
  ),
)

-- What the far machine has accepted after the events, and what is still to come.
outcome : Option (List Bytes × ℕ)
outcome =
    connect plain near_machine far_machine key_pair (5 ∷ []) (6 ∷ []) 21 3 22 4
    >>= (λ (n : Network ℕ). let n' = run plain n events in some (n'.accepted, length (pending n')))

one_of_two : outcome ≡ some ((1 ∷ 1 ∷ 1 ∷ []) ∷ [], 1)
unfolding outcome connect establish_session encapsulate_to_peer generate accept_session
    decapsulate_from_peer run step send encrypt_frame call Frames.encrypt_frame Session.encrypt
    Session.new receive decrypt_frame Frames.decrypt_frame strip_prefix le_bytes combine
    cleanup_expired Manager.new Manager.retain Session.decrypt Session.is_expired nonce_bytes
    Kem.mlkem_decapsulate Kem.mlkem_encapsulate Kem.x25519_dh_real
one_of_two = refl

connect-prefix_example :
    (n : Network ℕ) × (connect plain near_machine far_machine key_pair (5 ∷ []) (6 ∷ []) 21 3 22 4
      ≡ some n)
    × (length (run plain n events).accepted ≤ length (run plain n events).sent)
    × ((run plain n events).accepted
        ≡ take (length (run plain n events).accepted) (payloads (run plain n events).sent))
connect-prefix_example =
    connect-prefix plain plain-IsAead plain-IsKeyExchange near_machine far_machine (3 ∷ []) (4 ∷ [])
      (5 ∷ []) (6 ∷ []) 21 3 22 4 events events-AllFair

connect-recovers_example :
    (n : Network ℕ) × (connect plain near_machine far_machine key_pair (5 ∷ []) (6 ∷ []) 21 3 22 4
      ≡ some n)
    × (let n' = run plain n events in
        (run plain n' (redeliveries 30 (length n'.accepted) (pending n'))).accepted
        ≡ payloads n'.sent)
connect-recovers_example =
    connect-recovers plain plain-IsAead plain-IsKeyExchange near_machine far_machine (3 ∷ [])
      (4 ∷ []) (5 ∷ []) (6 ∷ []) 21 3 22 4 events 30 events-AllFair
