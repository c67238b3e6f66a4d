-- ===== src/Pqc/Channel/Order.antt =====
-- Whatever the network does, the receiver accepts the frames that were sent, in order and each once.
use sovereign_edge_tee_agent.Base.{
  ℕ, suc, ◌^◌, ◌≤◌, ◌≡◌, refl, sym, ap, ◌∙◌, arith, true, ◌&&◌, List, [], ◌∷◌, some, length,
  length-append, take, get_elem?, take-length, drop, drop_cons, drop_nil, ◌==◌, if◌then◌else◌,
}
use sovereign_edge_tee_agent.Common.{TelemetryFrame, EncryptedFrame}
use sovereign_edge_tee_agent.Pqc.Crypto.{Crypto, IsAead}
use sovereign_edge_tee_agent.Pqc.Session.{PqcSession}
use sovereign_edge_tee_agent.Pqc.Frames.Delivery.{IsLinked}
use sovereign_edge_tee_agent.Pqc.Channel.{Channel, opened, Move, delivers, move, run}
use sovereign_edge_tee_agent.Pqc.Channel.Orderly.{
  deliveries, payloads, length-payloads, IdsFit, IsOrderly, receive_lem, accepted-IsOrderly,
  delivers_sent, run-IsOrderly, opened-IsOrderly,
}

module _ (c : Crypto) (h : IsAead c) {F : Type 0} where
  -- With an authentic cipher, between linked sessions, over a network that may lose, delay, reorder and repeat what was
  -- sent and change its frame ids: at every moment the payloads that the receiver has accepted are the first ones that
  -- were sent, in order and each once.
  pub run-prefix :
      (a b : PqcSession) (ms : List (Move F))
      → IsLinked a b
      → a.send_nonce ≤ 2 ^ 64
      → IdsFit ms
      → let ch = run c (opened a b) ms in
        (length ch.accepted ≤ length ch.sent)
        × (ch.accepted ≡ take (length ch.accepted) (payloads ch.sent))
  run-prefix a b ms l n k =
      let o = run-IsOrderly c h a.send_nonce (opened a b) ms k (opened-IsOrderly c h a b l n) in
      (o.few, o.in_order)

  deliver_next :
      (base : ℕ) (ch : Channel F) (now : ℕ) (f : TelemetryFrame F) (w : EncryptedFrame)
      → IsOrderly c base ch
      → get_elem? ch.sent (length ch.accepted) ≡ some (f, w)
      → let ch' = move c ch (delivers (length ch.accepted) w.frame_id now) in
        IsOrderly c base ch'
        × (ch'.sent ≡ ch.sent)
        × (length ch'.accepted ≡ suc (length ch.accepted))
  deliver_next base ch now f w o e =
      let s = o.sealed (length ch.accepted) (f, w) e in
      let id : w.frame_id ≡ f.frame_id = ap (λ x. x.frame_id) s.on_wire in
      let next : ((length ch.accepted == length ch.accepted) && (w.frame_id == f.frame_id)) ≡ true =
        ground arith in
      rw
        (
          delivers_sent c h ch (length ch.accepted) w.frame_id now e,
          receive_lem c h base ch (length ch.accepted) w.frame_id now f w o e
              (omega (arith, id, s.id_small)),
          next,
          if◌then◌else◌,
        )
        (
          accepted-IsOrderly c h base ch now (f, w) o e,
          refl,
          omega (arith, length-append ch.accepted (f.payload ∷ [])),
        )

  pub catch_up :
      (base : ℕ) (ch : Channel F) (now : ℕ) (rest : List (TelemetryFrame F × EncryptedFrame))
      → IsOrderly c base ch
      → drop (length ch.accepted) ch.sent ≡ rest
      → (run c ch (deliveries now (length ch.accepted) rest)).accepted ≡ payloads ch.sent
  unfolding run
  catch_up base ch now [] o e =
      let all : length ch.accepted ≡ length (payloads ch.sent) =
        omega (arith, o.few, length-payloads ch.sent, drop_nil ch.sent (length ch.accepted) e) in
      o.in_order ∙ ap (λ n. take n (payloads ch.sent)) all ∙ take-length (payloads ch.sent)
  catch_up base ch now ((f, w) ∷ rest) o e =
      let (at, left) = drop_cons ch.sent (length ch.accepted) e in
      let ch' = move c ch (delivers (length ch.accepted) w.frame_id now) in
      let (o', same, count) = deliver_next base ch now f w o at in
      ap (λ k. (run c ch' (deliveries now k rest)).accepted) (sym count)
      ∙ catch_up base ch' now rest o'
          (ap (λ n. drop n ch'.sent) count ∙ ap (drop (suc (length ch.accepted))) same ∙ left)
      ∙ ap payloads same

  -- With an authentic cipher, between linked sessions: whatever the network has done so far, no frame that was sent is
  -- spoilt by it. Once the frames that the receiver has not accepted yet are delivered unchanged and in order, it has
  -- accepted every payload that was sent.
  run-recovers :
      (a b : PqcSession) (ms : List (Move F)) (now : ℕ)
      → IsLinked a b
      → a.send_nonce ≤ 2 ^ 64
      → IdsFit ms
      → let ch = run c (opened a b) ms in
        let n = length ch.accepted in
        (run c ch (deliveries now n (drop n ch.sent))).accepted ≡ payloads ch.sent
  run-recovers a b ms now l n k =
      catch_up a.send_nonce (run c (opened a b) ms) now _
        (run-IsOrderly c h a.send_nonce (opened a b) ms k (opened-IsOrderly c h a b l n)) refl
