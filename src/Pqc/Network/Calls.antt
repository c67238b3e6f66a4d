-- ===== src/Pqc/Network/Calls.antt =====
-- What another call on a manager leaves of a session: how it sends, and how it receives.
use sovereign_edge_tee_agent.Base.{
  ℕ, ◌≡◌, ◌≢◌, refl, sym, ap, ◌∙◌, arith, ◌⊎◌, inl, inr, [], ◌∷◌, some, get_elem?, set,
  get_elem?-set_self, get_elem?-set_ne, get_elem?-lt, get_elem?-append_left, Bool-cases,
  Option-cases, ◌==◌, ==_iff,
}
use sovereign_edge_tee_agent.Common.{TelemetryFrame, EncryptedFrame}
use sovereign_edge_tee_agent.Pqc.Crypto.{Crypto}
use sovereign_edge_tee_agent.Pqc.Session
use sovereign_edge_tee_agent.Pqc.Session.{PqcSession}
use sovereign_edge_tee_agent.Pqc.Frames
use sovereign_edge_tee_agent.Pqc.Manager.{World, encrypt_frame, decrypt_frame, cleanup_expired}
use sovereign_edge_tee_agent.Pqc.Manager.Store.{State}
use sovereign_edge_tee_agent.Pqc.Manager.Reach.{Adds, establish-Adds, accept-Adds}
use sovereign_edge_tee_agent.Pqc.Network.{
  Call, establish, accept, encrypt, decrypt, clean, call, SendsNothing, DeliversNothing,
}

-- The same session as far as sending, or receiving, is concerned.
abbrev pub SendsAs : PqcSession → PqcSession → Type 0
SendsAs a b = (b.send_key ≡ a.send_key) × (b.send_nonce ≡ a.send_nonce)

abbrev pub ReceivesAs : PqcSession → PqcSession → Type 0
ReceivesAs a b = (b.recv_key ≡ a.recv_key) × (b.recv_nonce ≡ a.recv_nonce)

-- A session of the store that stands to an earlier one as `R` says.
abbrev pub Holds : (PqcSession → Type 0) → World → ℕ → Type 0
Holds R w k = (b : PqcSession) × (get_elem? w k ≡ some b) × R b

Adds-same :
    (R : PqcSession → Type 0) {s t : State} (k : ℕ) → Adds s t → Holds R s.0 k → Holds R t.0 k
Adds-same R k (inl e) h = rw e h
Adds-same R {s} {t} k (inr (x, e)) (b, at, r) = rw e (b, get_elem?-append_left s.0 (x ∷ []) k at, r)

set-other :
    (R : PqcSession → Type 0) (w : World) {arc k : ℕ} (y : PqcSession)
    → arc ≢ k
    → Holds R w k
    → Holds R (set w arc y) k
set-other R w y ne (b, at, r) = (b, get_elem?-set_ne w y ne ∙ at, r)

-- A write to the session itself, or to another one.
set-any :
    (R : PqcSession → Type 0) (w : World) (arc k : ℕ) (x y : PqcSession)
    → get_elem? w arc ≡ some x
    → (R x → R y)
    → Holds R w k
    → Holds R (set w arc y) k
set-any R w arc k x y there keeps (b, at, r) = elim (Bool-cases (arc == k)) [
  | inl same ↦
      let here : arc ≡ k = (==_iff arc k).0 same in
      let held : b ≡ x = cc (sym at ∙ ap (get_elem? w) (sym here) ∙ there) in
      (
        y,
        ap (get_elem? (set w arc y)) (sym here)
            ∙ get_elem?-set_self w arc y (get_elem?-lt w arc there),
        keeps (rw (← held) r),
      )
  | inr other ↦ set-other R w y (λ q. cc (sym other ∙ (==_iff arc k).1 q)) (b, at, r)
]

module _ (c : Crypto) where
  decrypt-SendsAs :
      (a : PqcSession) (e : EncryptedFrame) (now : ℕ) → SendsAs a (Frames.decrypt_frame c a e now).1
  unfolding Frames.decrypt_frame Session.decrypt
  decrypt-SendsAs a e now = ground arith

  pub decrypt_frame-set :
      (w : World) (arc : ℕ) (a : PqcSession) (e : EncryptedFrame) (now : ℕ)
      → get_elem? w arc ≡ some a
      → decrypt_frame c w arc e now
        ≡ some ((Frames.decrypt_frame c a e now).0, set w arc (Frames.decrypt_frame c a e now).1)
  unfolding decrypt_frame
  decrypt_frame-set w arc a e now there = rw (there, decrypt_frame) refl

module _ (c : Crypto) {F : Type 0} where
  encrypt-ReceivesAs :
      (a : PqcSession) (f : TelemetryFrame F) (now : ℕ)
      → ReceivesAs a (Frames.encrypt_frame c a f now).1
  unfolding Frames.encrypt_frame Session.encrypt
  encrypt-ReceivesAs a f now = ground arith

  -- A call as a write to the store.
  pub encrypt_frame-set :
      (w : World) (arc : ℕ) (a : PqcSession) (f : TelemetryFrame F) (now : ℕ)
      → get_elem? w arc ≡ some a
      → encrypt_frame c w arc f now
        ≡ some ((Frames.encrypt_frame c a f now).0, set w arc (Frames.encrypt_frame c a f now).1)
  unfolding encrypt_frame
  encrypt_frame-set w arc a f now there = rw (there, encrypt_frame) refl

  call-encrypt :
      (s : State) (arc : ℕ) (f : TelemetryFrame F) (now : ℕ)
      → (call c s (encrypt arc f now) ≡ s)
        ⊎ ((a : PqcSession) × (get_elem? s.0 arc ≡ some a)
            × (call c s (encrypt arc f now)
                ≡ (set s.0 arc (Frames.encrypt_frame c a f now).1, s.1)))
  unfolding call encrypt_frame
  call-encrypt s arc f now = elim (Option-cases (get_elem? s.0 arc)) [
    | inl nothing ↦ inl (rw (nothing, call, encrypt_frame) refl)
    | inr (a, there) ↦ inr (a, there, rw (there, call, encrypt_frame) refl)
  ]

module _ (c : Crypto) (F : Type 0) where
  call-decrypt :
      (s : State) (arc : ℕ) (e : EncryptedFrame) (now : ℕ)
      → (call c {F = F} s (decrypt arc e now) ≡ s)
        ⊎ ((a : PqcSession) × (get_elem? s.0 arc ≡ some a)
            × (call c {F = F} s (decrypt arc e now)
                ≡ (set s.0 arc (Frames.decrypt_frame c a e now).1, s.1)))
  unfolding call decrypt_frame
  call-decrypt s arc e now = elim (Option-cases (get_elem? s.0 arc)) [
    | inl nothing ↦ inl (rw (nothing, call, decrypt_frame) refl)
    | inr (a, there) ↦ inr (a, there, rw (there, call, decrypt_frame) refl)
  ]

module _ (c : Crypto) {F : Type 0} where
  pub call-SendsAs :
      (s : State) (q : Call F) (k : ℕ) (a : PqcSession)
      → SendsNothing k q
      → Holds (SendsAs a) s.0 k
      → Holds (SendsAs a) (call c s q).0 k
  unfolding call cleanup_expired
  call-SendsAs s (establish remote secret r i now) k a n h =
      Adds-same (SendsAs a) k (establish-Adds c F s remote secret r i now) h
  call-SendsAs s (accept kem e i now) k a n h =
      Adds-same (SendsAs a) k (accept-Adds c F s kem e i now) h
  call-SendsAs s (encrypt arc f now) k a n h = elim (call-encrypt c s arc f now) [
    | inl same ↦ rw same h
    | inr (x, there, done) ↦ rw done (set-other (SendsAs a) s.0 _ n h)
  ]
  call-SendsAs s (decrypt arc e now) k a n h = elim (call-decrypt c F s arc e now) [
    | inl same ↦ rw same h
    | inr (x, there, done) ↦
        let (key, count) = decrypt-SendsAs c x e now in
        rw done (set-any (SendsAs a) s.0 arc k x _ there (λ r. (key ∙ r.0, count ∙ r.1)) h)
  ]
  call-SendsAs s (clean clock) k a n h = h

  pub call-ReceivesAs :
      (s : State) (q : Call F) (k : ℕ) (a : PqcSession)
      → DeliversNothing k q
      → Holds (ReceivesAs a) s.0 k
      → Holds (ReceivesAs a) (call c s q).0 k
  unfolding call cleanup_expired
  call-ReceivesAs s (establish remote secret r i now) k a n h =
      Adds-same (ReceivesAs a) k (establish-Adds c F s remote secret r i now) h
  call-ReceivesAs s (accept kem e i now) k a n h =
      Adds-same (ReceivesAs a) k (accept-Adds c F s kem e i now) h
  call-ReceivesAs s (encrypt arc f now) k a n h = elim (call-encrypt c s arc f now) [
    | inl same ↦ rw same h
    | inr (x, there, done) ↦
        let (key, count) = encrypt-ReceivesAs c x f now in
        rw done (set-any (ReceivesAs a) s.0 arc k x _ there (λ r. (key ∙ r.0, count ∙ r.1)) h)
  ]
  call-ReceivesAs s (decrypt arc e now) k a n h = elim (call-decrypt c F s arc e now) [
    | inl same ↦ rw same h
    | inr (x, there, done) ↦ rw done (set-other (ReceivesAs a) s.0 _ n h)
  ]
  call-ReceivesAs s (clean clock) k a n h = h
