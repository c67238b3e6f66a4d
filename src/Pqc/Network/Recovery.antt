-- ===== src/Pqc/Network/Recovery.antt =====
-- Nothing that happens between two machines spoils what was sent over their session.
use sovereign_edge_tee_agent.Base.{
  ℕ, suc, ◌≡◌, refl, sym, ap, ◌∙◌, Bytes, inl, inr, List, [], ◌∷◌, some, length, drop, get_elem?,
  get_elem?-set_self, get_elem?-lt, Option-cases,
}
use sovereign_edge_tee_agent.Common.{TelemetryFrame, EncryptedFrame}
use sovereign_edge_tee_agent.Pqc.Crypto.{Crypto, IsAead, IsKeyExchange}
use sovereign_edge_tee_agent.Pqc.Session.{PqcSession}
use sovereign_edge_tee_agent.Pqc.Kem.{generate}
use sovereign_edge_tee_agent.Pqc.Channel
use sovereign_edge_tee_agent.Pqc.Channel.Orderly.{deliveries, payloads}
use sovereign_edge_tee_agent.Pqc.Channel.Order.{catch_up}
use sovereign_edge_tee_agent.Pqc.Manager.Store.{State}
use sovereign_edge_tee_agent.Pqc.Network.{Network, Event, delivers, step, run, connect, AllFair}
use sovereign_edge_tee_agent.Pqc.Network.Secure.{seen, receive_lem, run-IsSecure}
use sovereign_edge_tee_agent.Pqc.Network.Handshake.{connect-IsSecure}

module _ {F : Type 0} where
  -- The deliveries of what is left, from a number on, unchanged.
  abbrev pub redeliveries : ℕ → ℕ → List (TelemetryFrame F × EncryptedFrame) → List (Event F)
  redeliveries now i [] = []
  redeliveries now i ((f, w) ∷ rest) = delivers i w.frame_id now ∷ redeliveries now (suc i) rest

  -- What has been sent and not been accepted.
  abbrev pub pending : Network F → List (TelemetryFrame F × EncryptedFrame)
  pending n = drop (length n.accepted) n.sent

module _ (c : Crypto) {F : Type 0} where
  delivers-seen :
      (n : Network F) (a b : PqcSession) (i id now : ℕ)
      → get_elem? n.far.0 n.far_arc ≡ some b
      → (b' : PqcSession) × (get_elem?
            (step c n (delivers i id now)).far.0
            (step c n (delivers i id now)).far_arc
          ≡ some b')
        × (Channel.move c (seen n a b) (Channel.delivers i id now)
            ≡ seen (step c n (delivers i id now)) a b')
  unfolding step Channel.move
  delivers-seen n a b i id now there = elim (Option-cases (get_elem? n.sent i)) [
    | inl nothing ↦ (b, rw (nothing, step) there, rw (nothing, step, Channel.move) refl)
    | inr ((f, w), e) ↦
        let (done, same) = receive_lem c n a b (record w { frame_id = id }) now there in
        (
          (Channel.receive c (seen n a b) (record w { frame_id = id }) now).receiver,
          rw (e, step, done)
              (get_elem?-set_self n.far.0 n.far_arc _ (get_elem?-lt n.far.0 n.far_arc there)),
          rw (e, step, Channel.move, done) same,
        )
  ]

  run-seen :
      (n : Network F) (a b : PqcSession) (now i : ℕ)
      (rest : List (TelemetryFrame F × EncryptedFrame))
      → get_elem? n.far.0 n.far_arc ≡ some b
      → (run c n (redeliveries now i rest)).accepted
        ≡ (Channel.run c (seen n a b) (deliveries now i rest)).accepted
  unfolding run Channel.run
  run-seen n a b now i [] there = refl
  run-seen n a b now i ((f, w) ∷ rest) there =
      let (b', there', moved) = delivers-seen n a b i w.frame_id now there in
      run-seen (step c n (delivers i w.frame_id now)) a b' now (suc i) rest there'
      ∙ ap (λ ch. (Channel.run c ch (deliveries now (suc i) rest)).accepted) (sym moved)

module _ (c : Crypto) (h : IsAead c) (k : IsKeyExchange c) {F : Type 0} where
  -- With an authentic cipher and a correct key exchange: whatever two machines and the network between them have done
  -- since a session was established and accepted, no frame that was sent over it is spoilt. Once the frames that were
  -- not accepted yet are delivered unchanged and in order, every payload that was sent has been accepted.
  pub connect-recovers :
      (s t : State) (secret random eph_secret eph_random : Bytes) (id now far_id far_now : ℕ)
      (es : List (Event F)) (later : ℕ)
      → AllFair (length s.0) (length t.0) es
      → (n : Network F) × (connect c s t
            (generate c secret random)
            eph_secret
            eph_random
            id
            now
            far_id
            far_now
          ≡ some n)
        × (let n' = run c n es in
            (run c n' (redeliveries later (length n'.accepted) (pending n'))).accepted
            ≡ payloads n'.sent)
  connect-recovers s t secret random eph_secret eph_random id now far_id far_now es later fair =
      let (n, made, secure) =
        connect-IsSecure c h k s t secret random eph_secret eph_random id now far_id far_now in
      let n' = run c n es in
      let safe = run-IsSecure c h 0 _ _ n es fair secure in
      (
        n,
        made,
        run-seen c n' safe.sender safe.receiver later (length n'.accepted) (pending n')
              safe.far_there
            ∙ catch_up c h 0 (seen n' safe.sender safe.receiver) later _ safe.orderly refl,
      )
