-- ===== src/Pqc/Network/Handshake.antt =====
-- From the handshake of two managers to the frames over its session.
use sovereign_edge_tee_agent.Base.{
  ℕ, ◌≡◌, ◌≤◌, refl, arith, Bytes, List, [], ◌∷◌, ◌++◌, some, length, take, get_elem?-append_last,
}
use sovereign_edge_tee_agent.Pqc.Crypto.{Crypto, IsAead, IsKeyExchange}
use sovereign_edge_tee_agent.Pqc.Session.{PqcSession}
use sovereign_edge_tee_agent.Pqc.Kem.{HybridKem, HybridEncapsulation, generate}
use sovereign_edge_tee_agent.Pqc.Error.{ok}
use sovereign_edge_tee_agent.Pqc.Manager.{establish_session, accept_session}
use sovereign_edge_tee_agent.Pqc.Channel.Orderly.{payloads, opened-IsOrderly}
use sovereign_edge_tee_agent.Pqc.Manager.Store.{State}
use sovereign_edge_tee_agent.Pqc.Manager.Sessions.{with_session, establish-accept_later}
use sovereign_edge_tee_agent.Pqc.Network.{Network, Event, run, connect, AllFair}
use sovereign_edge_tee_agent.Pqc.Network.Secure.{IsSecure, run-IsSecure}

module _ {F : Type 0} where
  -- Two machines with one more session each.
  abbrev connected : State → State → PqcSession → PqcSession → Network F
  connected s t a b = record {
    near = (s.0 ++ (a ∷ []), with_session s.1 (length s.0));
    far = (t.0 ++ (b ∷ []), with_session t.1 (length t.0));
    near_arc = length s.0;
    far_arc = length t.0;
    sent = [];
    accepted = [];
  }

module _ (c : Crypto) {F : Type 0} where
  connect-connected :
      (s t : State) (kem : HybridKem) (eph_secret random : Bytes) (id now far_id far_now : ℕ)
      {e : HybridEncapsulation} (a b : PqcSession)
      → establish_session c s.0 s.1 kem.local_public eph_secret random id now
        ≡ (ok (length s.0, e), s.0 ++ (a ∷ []), with_session s.1 (length s.0))
      → accept_session c t.0 t.1 kem e far_id far_now
        ≡ (ok (length t.0), t.0 ++ (b ∷ []), with_session t.1 (length t.0))
      → connect c {F = F} s t kem eph_secret random id now far_id far_now ≡ some (connected s t a b)
  unfolding connect
  connect-connected s t kem eph_secret random id now far_id far_now a b made accepted =
      ground (arith, made, accepted)

module _ (c : Crypto) (h : IsAead c) (k : IsKeyExchange c) {F : Type 0} where
  pub connect-IsSecure :
      (s t : State) (secret random eph_secret eph_random : Bytes) (id now far_id far_now : ℕ)
      → (n : Network F) × (connect c s t
            (generate c secret random)
            eph_secret
            eph_random
            id
            now
            far_id
            far_now
          ≡ some n)
        × IsSecure c 0 (length s.0) (length t.0) n
  connect-IsSecure s t secret random es er id now far_id far_now =
      let (e, a, made, fresh, _, accepts) =
        establish-accept_later c k s.0 s.1 secret random es er id now in
      let (b, accepted, linked, _) = accepts t.0 t.1 far_id far_now in
      (
        connected s t a b,
        connect-connected c s t (generate c secret random) es er id now far_id far_now a b made
            accepted,
        record {
          sender = a;
          receiver = b;
          at_near = refl;
          at_far = refl;
          near_there = get_elem?-append_last s.0 a;
          far_there = get_elem?-append_last t.0 b;
          orderly = rw (← fresh) (opened-IsOrderly c h a b linked (omega (arith, fresh)));
        },
      )

  -- With an authentic cipher and a correct key exchange, between two machines in any states, with any randomness: a
  -- session established to a generated key pair is accepted by its holder. From then on, while the two programs make
  -- any other calls on their managers (new sessions, cleanups, other frames, even answers over the session), and the
  -- network loses, delays, reorders, repeats and renames what is sent over it: at every moment the payloads accepted
  -- over the session are the first ones that were sent over it, in order and each once.
  pub connect-prefix :
      (s t : State) (secret random eph_secret eph_random : Bytes) (id now far_id far_now : ℕ)
      (es : List (Event F))
      → AllFair (length s.0) (length t.0) es
      → (n : Network F) × (connect c s t
            (generate c secret random)
            eph_secret
            eph_random
            id
            now
            far_id
            far_now
          ≡ some n)
        × (length (run c n es).accepted ≤ length (run c n es).sent)
        × ((run c n es).accepted ≡ take (length (run c n es).accepted) (payloads (run c n es).sent))
  connect-prefix s t secret random eph_secret eph_random id now far_id far_now es fair =
      let (n, made, secure) =
        connect-IsSecure s t secret random eph_secret eph_random id now far_id far_now in
      let o = (run-IsSecure c h 0 _ _ n es fair secure).orderly in (n, made, o.few, o.in_order)
