-- ===== src/Pqc/Network/Secure.antt =====
-- What goes over a session that two managers have set up, whatever else the two machines do.
use sovereign_edge_tee_agent.Base.{
  ℕ, ◌≡◌, ◌^◌, ◌<◌, refl, sym, ◌∙◌, arith, inl, inr, List, [], ◌∷◌, some, get_elem?, set,
  get_elem?-set_self, get_elem?-lt, Option-cases,
}
use sovereign_edge_tee_agent.Base.Fallible.{Fallible-cases}
use sovereign_edge_tee_agent.Common.{TelemetryFrame, EncryptedFrame}
use sovereign_edge_tee_agent.Pqc.Crypto.{Crypto, IsAead}
use sovereign_edge_tee_agent.Pqc.Session.{PqcSession}
use sovereign_edge_tee_agent.Pqc.Frames
use sovereign_edge_tee_agent.Pqc.Channel
use sovereign_edge_tee_agent.Pqc.Channel.{Channel}
use sovereign_edge_tee_agent.Pqc.Channel.Orderly.{IsOrderly, move-IsOrderly, delivers_sent}
use sovereign_edge_tee_agent.Pqc.Network.{
  Network, Event, sends, delivers, near_calls, far_calls, send, receive, step, run, IsFair, AllFair,
}
use sovereign_edge_tee_agent.Pqc.Network.Calls.{
  SendsAs, ReceivesAs, encrypt_frame-set, decrypt_frame-set, call-SendsAs, call-ReceivesAs,
}

module _ {F : Type 0} where
  -- The channel between the two sessions.
  abbrev pub seen : Network F → PqcSession → PqcSession → Channel F
  seen n a b = record { sender = a; receiver = b; sent = n.sent; accepted = n.accepted }

module _ (c : Crypto) {F : Type 0} where
  -- The event does on the network what the move does on the channel.
  send_lem :
      (n : Network F) (a b : PqcSession) (f : TelemetryFrame F) (now : ℕ)
      → get_elem? n.near.0 n.near_arc ≡ some a
      → let ch = Channel.send c (seen n a b) f now in
        (send c n f now
          ≡ record n { near = (set n.near.0 n.near_arc ch.sender, n.near.1); sent = ch.sent })
        × (ch ≡ record (seen n a b) { sender = ch.sender; sent = ch.sent })
  unfolding send Channel.send
  send_lem n a b f now there =
      let q = encrypt_frame-set c n.near.0 n.near_arc a f now there in
      elim (Fallible-cases (Frames.encrypt_frame c a f now).0) [
        | inl (w, e) ↦ (ground (arith, q), ground arith)
        | inr (x, e) ↦ (ground (arith, q), ground arith)
      ]

  pub receive_lem :
      (n : Network F) (a b : PqcSession) (w : EncryptedFrame) (now : ℕ)
      → get_elem? n.far.0 n.far_arc ≡ some b
      → let ch = Channel.receive c (seen n a b) w now in
        (receive c n w now
          ≡ record n { far = (set n.far.0 n.far_arc ch.receiver, n.far.1); accepted = ch.accepted })
        × (ch ≡ record (seen n a b) { receiver = ch.receiver; accepted = ch.accepted })
  unfolding receive Channel.receive
  receive_lem n a b w now there =
      let q = decrypt_frame-set c n.far.0 n.far_arc b w now there in
      elim (Fallible-cases (Frames.decrypt_frame c b w now).0) [
        | inl (m, e) ↦ (ground (arith, q), ground arith)
        | inr (x, e) ↦ (ground (arith, q), ground arith)
      ]

  -- A session that sends, or receives, as before does for the channel.
  IsOrderly-sender :
      (base : ℕ) (ch : Channel F) (a : PqcSession)
      → SendsAs ch.sender a
      → IsOrderly c base ch
      → IsOrderly c base (record ch { sender = a })
  IsOrderly-sender base ch a (key, count) o = record {
    keys = key ∙ o.keys;
    sends_at = count ∙ o.sends_at;
    receives_at = o.receives_at;
    room = omega (arith, o.room, count);
    few = o.few;
    in_order = o.in_order;
    sealed = rw key o.sealed;
  }

  IsOrderly-receiver :
      (base : ℕ) (ch : Channel F) (b : PqcSession)
      → ReceivesAs ch.receiver b
      → IsOrderly c base ch
      → IsOrderly c base (record ch { receiver = b })
  IsOrderly-receiver base ch b (key, count) o = record {
    keys = o.keys ∙ sym key;
    sends_at = o.sends_at;
    receives_at = count ∙ o.receives_at;
    room = o.room;
    few = o.few;
    in_order = o.in_order;
    sealed = o.sealed;
  }

  -- The two sessions are there under their numbers, and the channel between them is in order.
  pub record IsSecure (base near far : ℕ) (n : Network F) : Type 0 where
    pub sender : PqcSession
    pub receiver : PqcSession
    pub at_near : n.near_arc ≡ near
    pub at_far : n.far_arc ≡ far
    pub near_there : get_elem? n.near.0 n.near_arc ≡ some sender
    pub far_there : get_elem? n.far.0 n.far_arc ≡ some receiver
    pub orderly : IsOrderly c base (seen n sender receiver)

module _ (c : Crypto) (h : IsAead c) {F : Type 0} where
  -- A frame on its way, which some frame was sent as.
  step_delivers :
      (n : Network F) (i id now : ℕ) {f : TelemetryFrame F} {w : EncryptedFrame}
      → get_elem? n.sent i ≡ some (f, w)
      → step c n (delivers i id now) ≡ receive c n (record w { frame_id = id }) now
  unfolding step
  step_delivers n i id now e = ground arith

  receive-IsSecure :
      (base near far : ℕ) (n : Network F) (i id now : ℕ) {f : TelemetryFrame F} {w : EncryptedFrame}
      → id < 2 ^ 64
      → get_elem? n.sent i ≡ some (f, w)
      → IsSecure c base near far n
      → IsSecure c base near far (receive c n (record w { frame_id = id }) now)
  receive-IsSecure base near far n i id now {f} {w} k e s =
      let ch = seen n s.sender s.receiver in
      let (done, same) =
        receive_lem c n s.sender s.receiver (record w { frame_id = id }) now s.far_there in
      let moved = (move-IsOrderly c h base ch (Channel.delivers i id now) [] (k, tt) s.orderly).0 in
      rw done (record {
        sender = s.sender;
        receiver = _;
        at_near = s.at_near;
        at_far = s.at_far;
        near_there = s.near_there;
        far_there =
            get_elem?-set_self n.far.0 n.far_arc _ (get_elem?-lt n.far.0 n.far_arc s.far_there);
        orderly = rw (← same, ← delivers_sent c h ch i id now e) moved;
      })

  send-IsSecure :
      (base near far : ℕ) (n : Network F) (f : TelemetryFrame F) (now : ℕ)
      → f.frame_id < 2 ^ 64
      → IsSecure c base near far n
      → IsSecure c base near far (send c n f now)
  unfolding Channel.move
  send-IsSecure base near far n f now k s =
      let ch = seen n s.sender s.receiver in
      let (done, same) = send_lem c n s.sender s.receiver f now s.near_there in
      let moved = (move-IsOrderly c h base ch (Channel.sends f now) [] (k, tt) s.orderly).0 in
      rw done (record {
        sender = _;
        receiver = s.receiver;
        at_near = s.at_near;
        at_far = s.at_far;
        near_there =
            get_elem?-set_self n.near.0 n.near_arc _
              (get_elem?-lt n.near.0 n.near_arc s.near_there);
        far_there = s.far_there;
        orderly = rw (← same) moved;
      })

  step-IsSecure :
      (base near far : ℕ) (n : Network F) (e : Event F)
      → IsFair near far e
      → IsSecure c base near far n
      → IsSecure c base near far (step c n e)
  unfolding step
  step-IsSecure base near far n (sends f now) fair s = send-IsSecure base near far n f now fair s
  step-IsSecure base near far n (delivers i id now) fair s =
      elim (Option-cases (get_elem? n.sent i)) [
        | inl nothing ↦ rw (nothing, step) s
        | inr ((f, w), e) ↦
            rw (step_delivers n i id now e) (receive-IsSecure base near far n i id now fair e s)
      ]
  step-IsSecure base near far n (near_calls q) fair s =
      let (a, there, kept) =
        call-SendsAs c n.near q n.near_arc s.sender (rw s.at_near fair)
          (s.sender, s.near_there, (refl, refl)) in
      record {
        sender = a;
        receiver = s.receiver;
        at_near = s.at_near;
        at_far = s.at_far;
        near_there = there;
        far_there = s.far_there;
        orderly = IsOrderly-sender c base (seen n s.sender s.receiver) a kept s.orderly;
      }
  step-IsSecure base near far n (far_calls q) fair s =
      let (b, there, kept) =
        call-ReceivesAs c n.far q n.far_arc s.receiver (rw s.at_far fair)
          (s.receiver, s.far_there, (refl, refl)) in
      record {
        sender = s.sender;
        receiver = b;
        at_near = s.at_near;
        at_far = s.at_far;
        near_there = s.near_there;
        far_there = there;
        orderly = IsOrderly-receiver c base (seen n s.sender s.receiver) b kept s.orderly;
      }

  pub run-IsSecure :
      (base near far : ℕ) (n : Network F) (es : List (Event F))
      → AllFair near far es
      → IsSecure c base near far n
      → IsSecure c base near far (run c n es)
  unfolding run
  run-IsSecure base near far n [] fair s = s
  run-IsSecure base near far n (e ∷ es) fair s =
      run-IsSecure base near far (step c n e) es fair.1 (step-IsSecure base near far n e fair.0 s)
