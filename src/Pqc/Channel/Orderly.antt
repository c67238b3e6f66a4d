-- ===== src/Pqc/Channel/Orderly.antt =====
-- The order that every move of the channel keeps.
use sovereign_edge_tee_agent.Base.{
  ℕ, suc, ◌+◌, ◌^◌, ◌≤◌, ◌<◌, ◌≡◌, refl, sym, ap, ◌∙◌, arith, Bytes, ◌&&◌, List, [], ◌∷◌, ◌++◌, map,
  none, some, length, length-append, take, get_elem?, get_elem?-lt, get_elem?-snoc, take_snoc,
  take-append, get_elem?-map, length-map, ◌==◌, if◌then◌else◌, inl, inr, Bool-cases, Option-cases,
}
use mathlib.Core.List.{map-append}
use sovereign_edge_tee_agent.Common.{TelemetryFrame, EncryptedFrame}
use sovereign_edge_tee_agent.Pqc.Crypto.{Crypto, IsAead}
use sovereign_edge_tee_agent.Pqc.Session.{PqcSession}
use sovereign_edge_tee_agent.Pqc.Frames.Delivery.{IsLinked, wire}
use sovereign_edge_tee_agent.Pqc.Frames.Rejection.{encrypt_frame_cases}
use sovereign_edge_tee_agent.Pqc.Channel.{
  Channel, opened, Move, sends, delivers, send, receive, move, run,
}
use sovereign_edge_tee_agent.Pqc.Channel.Moves.{
  IsSealed, send-ok, send-err, receive-ok, receive-err, accepts, refuses,
}

module _ {F : Type 0} where
  -- The payloads that were sent.
  abbrev pub payloads : List (TelemetryFrame F × EncryptedFrame) → List Bytes
  payloads sent = map (λ p. p.0.payload) sent

  pub length-payloads :
      (sent : List (TelemetryFrame F × EncryptedFrame)) → length (payloads sent) ≡ length sent
  length-payloads = length-map (λ p. p.0.payload)

  -- Frame ids are `u64`.
  abbrev pub IdsFit : List (Move F) → Type 0
  IdsFit [] = Unit {0}
  IdsFit (sends f now ∷ ms) = (f.frame_id < 2 ^ 64) × IdsFit ms
  IdsFit (delivers i id now ∷ ms) = (id < 2 ^ 64) × IdsFit ms

  -- The deliveries of what is left, from a number on, unchanged.
  abbrev pub deliveries : ℕ → ℕ → List (TelemetryFrame F × EncryptedFrame) → List (Move F)
  deliveries now i [] = []
  deliveries now i ((f, w) ∷ rest) = delivers i w.frame_id now ∷ deliveries now (suc i) rest

module _ (c : Crypto) {F : Type 0} where
  -- The counters stand at the numbers of frames sent and accepted, after `base` earlier ones.
  pub record IsOrderly (base : ℕ) (ch : Channel F) : Type 0 where
    pub keys : ch.sender.send_key ≡ ch.receiver.recv_key
    pub sends_at : ch.sender.send_nonce ≡ base + length ch.sent
    pub receives_at : ch.receiver.recv_nonce ≡ base + length ch.accepted
    pub room : ch.sender.send_nonce ≤ 2 ^ 64
    pub few : length ch.accepted ≤ length ch.sent
    pub in_order : ch.accepted ≡ take (length ch.accepted) (payloads ch.sent)
    pub sealed :
        (i : ℕ) (p : TelemetryFrame F × EncryptedFrame)
        → get_elem? ch.sent i ≡ some p
        → IsSealed c ch.sender.send_key (base + i) p.0 p.1

  send-IsOrderly :
      (base : ℕ) (ch : Channel F) (f : TelemetryFrame F) (now : ℕ)
      → f.frame_id < 2 ^ 64
      → IsOrderly base ch
      → IsOrderly base (send c ch f now)
  send-IsOrderly base ch f now k o = elim (encrypt_frame_cases c ch.sender f now) [
    | inl (ct, n, sealed, q) ↦
        let count : length (ch.sent ++ ((f, wire f ct) ∷ [])) ≡ length ch.sent + 1 =
          length-append ch.sent ((f, wire f ct) ∷ []) in
        rw (send-ok c ch f now q) (record {
          keys = o.keys;
          sends_at = omega (arith, count, o.sends_at);
          receives_at = o.receives_at;
          room = omega arith;
          few = omega (arith, count, o.few);
          in_order =
              o.in_order
              ∙ sym (
                  ap (take (length ch.accepted)) (map-append _ ch.sent ((f, wire f ct) ∷ []))
                  ∙ take-append (length ch.accepted) (payloads ch.sent) _
                      (omega (arith, o.few, length-payloads ch.sent)));
          sealed = λ i p e. elim (get_elem?-snoc ch.sent (f, wire f ct) i e) [
            | inl old ↦ o.sealed i p old
            | inr (last, new) ↦
                rw (← new, last, ← o.sends_at)
                  (record {
                    ciphertext = ct;
                    sealed = sealed;
                    on_wire = refl;
                    counter_small = n;
                    id_small = k;
                  })
          ];
        })
    | inr (x, q) ↦ rw (send-err c ch f now q) o
  ]

module _ (c : Crypto) (h : IsAead c) {F : Type 0} where
  -- A delivery is accepted exactly when it is the next frame in order, with its own id.
  pub receive_lem :
      (base : ℕ) (ch : Channel F) (i id now : ℕ) (f : TelemetryFrame F) (w : EncryptedFrame)
      → IsOrderly c base ch
      → get_elem? ch.sent i ≡ some (f, w)
      → id < 2 ^ 64
      → receive c ch (record w { frame_id = id }) now ≡ (
          if (i == length ch.accepted) && (id == f.frame_id)
          then record ch {
            receiver = record (ch.receiver) {
              recv_nonce = ch.receiver.recv_nonce + 1;
              last_activity = now;
            };
            accepted = ch.accepted ++ (f.payload ∷ []);
          }
          else ch)
  receive_lem base ch i id now f w o e k =
      let s : IsSealed c ch.receiver.recv_key (base + i) f w =
        rw (← o.keys) (o.sealed i (f, w) e) in
      elim (Bool-cases ((i == length ch.accepted) && (id == f.frame_id))) [
        | inl next ↦
            let at : i ≡ length ch.accepted = ground arith in
            let same : id ≡ f.frame_id = ground arith in
            rw (next, if◌then◌else◌, same)
              (receive-ok c ch _ now (accepts c h ch.receiver f w now (rw (o.receives_at, ← at) s)))
        | inr other ↦
            let (x, q) =
              refuses c h ch.receiver (base + i) f w id now s k (ground (arith, o.receives_at)) in
            rw (other, if◌then◌else◌) (receive-err c ch _ now q)
      ]

  -- What is delivered changes the channel only as the next frame in order.
  pub accepted-IsOrderly :
      (base : ℕ) (ch : Channel F) (now : ℕ) (p : TelemetryFrame F × EncryptedFrame)
      → IsOrderly c base ch
      → get_elem? ch.sent (length ch.accepted) ≡ some p
      → IsOrderly c base (record ch {
        receiver = record (ch.receiver) {
          recv_nonce = ch.receiver.recv_nonce + 1;
          last_activity = now;
        };
        accepted = ch.accepted ++ (p.0.payload ∷ []);
      })
  accepted-IsOrderly base ch now p o e =
      let count : length (ch.accepted ++ (p.0.payload ∷ [])) ≡ suc (length ch.accepted) =
        omega (arith, length-append ch.accepted (p.0.payload ∷ [])) in
      record {
        keys = o.keys;
        sends_at = o.sends_at;
        receives_at = omega (arith, count, o.receives_at);
        room = o.room;
        few = omega (arith, count, get_elem?-lt ch.sent (length ch.accepted) e);
        in_order =
            ap (λ xs. xs ++ (p.0.payload ∷ [])) o.in_order
            ∙ sym (
                take_snoc (payloads ch.sent) (length ch.accepted)
                  (get_elem?-map (λ q. q.0.payload) ch.sent (length ch.accepted) e))
            ∙ ap (λ n. take n (payloads ch.sent)) (sym count);
        sealed = o.sealed;
      }

  delivers_nothing :
      (ch : Channel F) (i id now : ℕ)
      → get_elem? ch.sent i ≡ none
      → move c ch (delivers i id now) ≡ ch
  unfolding move
  delivers_nothing ch i id now e = ground arith

  pub delivers_sent :
      (ch : Channel F) (i id now : ℕ) {f : TelemetryFrame F} {w : EncryptedFrame}
      → get_elem? ch.sent i ≡ some (f, w)
      → move c ch (delivers i id now) ≡ receive c ch (record w { frame_id = id }) now
  unfolding move
  delivers_sent ch i id now e = ground arith

  pub move-IsOrderly :
      (base : ℕ) (ch : Channel F) (m : Move F) (ms : List (Move F))
      → IdsFit (m ∷ ms)
      → IsOrderly c base ch
      → IsOrderly c base (move c ch m) × IdsFit ms
  unfolding move
  move-IsOrderly base ch (sends f now) ms k o = (send-IsOrderly c base ch f now k.0 o, k.1)
  move-IsOrderly base ch (delivers i id now) ms k o = elim (Option-cases (get_elem? ch.sent i)) [
    | inl e ↦ rw (delivers_nothing ch i id now e) (o, k.1)
    | inr ((f, w), e) ↦
        rw (delivers_sent ch i id now e, receive_lem base ch i id now f w o e k.0)
          (elim (Bool-cases ((i == length ch.accepted) && (id == f.frame_id))) [
            | inl next ↦
                let at : i ≡ length ch.accepted = ground arith in
                rw (next, if◌then◌else◌)
                  (
                    accepted-IsOrderly base ch now (f, w) o (ap (get_elem? ch.sent) (sym at) ∙ e),
                    k.1,
                  )
            | inr other ↦ rw (other, if◌then◌else◌) (o, k.1)
          ])
  ]

  pub run-IsOrderly :
      (base : ℕ) (ch : Channel F) (ms : List (Move F))
      → IdsFit ms
      → IsOrderly c base ch
      → IsOrderly c base (run c ch ms)
  unfolding run
  run-IsOrderly base ch [] k o = o
  run-IsOrderly base ch (m ∷ ms) k o =
      let (next, rest) = move-IsOrderly base ch m ms k o in
      run-IsOrderly base (move c ch m) ms rest next

  pub opened-IsOrderly :
      (a b : PqcSession)
      → IsLinked a b
      → a.send_nonce ≤ 2 ^ 64
      → IsOrderly c a.send_nonce (opened {F = F} a b)
  opened-IsOrderly a b l n = record {
    keys = l.keys;
    sends_at = omega arith;
    receives_at = omega (arith, l.counters);
    room = n;
    few = omega arith;
    in_order = refl;
    sealed = λ i p e. absurd (cc);
  }
