-- ===== src/Pqc/Manager/Reach.antt =====
-- The states that the calls of a manager reach, and what every history of calls keeps.
use sovereign_edge_tee_agent.Base.{
  ℕ, suc, text, ◌≡◌, ◌⊎◌, inl, inr, refl, ◌∙◌, arith, Bytes, [], ◌∷◌, ◌++◌, some, length, get_elem?,
  set, length-append, length-set, Option-cases,
}
use sovereign_edge_tee_agent.Common.{TelemetryFrame, EncryptedFrame}
use sovereign_edge_tee_agent.Pqc.Error.{Result}
use sovereign_edge_tee_agent.Pqc.Crypto.{Crypto}
use sovereign_edge_tee_agent.Pqc.Session
use sovereign_edge_tee_agent.Pqc.Session.{PqcSession, encrypt, decrypt}
use sovereign_edge_tee_agent.Pqc.Frames
use sovereign_edge_tee_agent.Base.Fallible.{Fallible-cases}
use sovereign_edge_tee_agent.Pqc.Kem.{
  HybridKem, HybridPublicKey, HybridEncapsulation, encapsulate_to_peer, decapsulate_from_peer,
}
use sovereign_edge_tee_agent.Pqc.Manager.{
  World, PqcTransportManager, key_material, establish_session, accept_session, encrypt_frame,
  decrypt_frame, is_kept, cleanup_expired,
}
use sovereign_edge_tee_agent.Pqc.Manager.Store.{
  State, IsOrderly, Ascends-snoc, Ascends-retain, IsLater, Evolves, Evolves-refl, Evolves-trans,
  Evolves-append, Evolves-set,
}

abbrev pub after : {A : Type 0} → A × World × PqcTransportManager → State
after (r, w, m) = (w, m)

module _ (c : Crypto) (F : Type 0) where
  -- A call on the manager, with any result.
  pub data Step (s : State) : State → Type 0 where
    establishes :
        (remote : HybridPublicKey) (eph_secret random : Bytes) (id now : ℕ)
        → Step s (after (establish_session c s.0 s.1 remote eph_secret random id now))
    accepts :
        (kem : HybridKem) (e : HybridEncapsulation) (id now : ℕ)
        → Step s (after (accept_session c s.0 s.1 kem e id now))
    encrypts :
        (arc : ℕ) (f : TelemetryFrame F) (now : ℕ) {r : Result EncryptedFrame} {w : World}
        → encrypt_frame c s.0 arc f now ≡ some (r, w)
        → Step s (w, s.1)
    decrypts :
        (arc : ℕ) (e : EncryptedFrame) (now : ℕ) {r : Result Bytes} {w : World}
        → decrypt_frame c s.0 arc e now ≡ some (r, w)
        → Step s (w, s.1)
    cleans : (clock : ℕ → ℕ) → Step s (s.0, (cleanup_expired s.0 s.1 clock).1)

  pub data Reach (s : State) : State → Type 0 where
    here : Reach s s
    next : {t u : State} → Reach s t → Step t u → Reach s u

-- A call that creates a session, or fails and changes nothing.
abbrev pub Adds : State → State → Type 0
Adds s t =
    (t ≡ s)
    ⊎ ((x : PqcSession) × (t
          ≡ (s.0 ++ (x ∷ []), record (s.1) { sessions = s.1.sessions ++ (length s.0 ∷ []) })))

module _ (c : Crypto) (F : Type 0) where
  encrypt-IsLater :
      (a : PqcSession) (f : TelemetryFrame F) (now : ℕ)
      → IsLater a (Frames.encrypt_frame c a f now).1
  unfolding Frames.encrypt_frame encrypt
  encrypt-IsLater a f now = ground arith

  decrypt-IsLater :
      (a : PqcSession) (e : EncryptedFrame) (now : ℕ) → IsLater a (Frames.decrypt_frame c a e now).1
  unfolding Frames.decrypt_frame decrypt
  decrypt-IsLater a e now = ground arith

  pub establish-Adds :
      (s : State) (remote : HybridPublicKey) (eph_secret random : Bytes) (id now : ℕ)
      → Adds s (after (establish_session c s.0 s.1 remote eph_secret random id now))
  unfolding establish_session
  establish-Adds s remote eph_secret random id now =
      elim (Fallible-cases (encapsulate_to_peer c remote eph_secret random)) [
        | inl ((e, key), q) ↦ inr (
          Session.new (c.sha256 (key_material key (text "SEND")))
              (c.sha256 (key_material key (text "RECV"))) id now,
          rw (q, establish_session) refl,
        )
        | inr (e, q) ↦ inl (rw (q, establish_session) refl)
      ]

  pub accept-Adds :
      (s : State) (kem : HybridKem) (e : HybridEncapsulation) (id now : ℕ)
      → Adds s (after (accept_session c s.0 s.1 kem e id now))
  unfolding accept_session
  accept-Adds s kem e id now = elim (Fallible-cases (decapsulate_from_peer c kem e)) [
    | inl (key, q) ↦ inr (
      Session.new (c.sha256 (key_material key (text "RECV")))
          (c.sha256 (key_material key (text "SEND"))) id now,
      rw (q, accept_session) refl,
    )
    | inr (x, q) ↦ inl (rw (q, accept_session) refl)
  ]

  -- What a call keeps.
  abbrev pub Keeps : State → State → Type 0
  Keeps s t =
      IsOrderly t × Evolves s.0 t.0 × (t.1.session_timeout_nanos ≡ s.1.session_timeout_nanos)

  Adds-Keeps : (s t : State) → Adds s t → IsOrderly s → Keeps s t
  Adds-Keeps s t (inl e) o = rw e (o, Evolves-refl s.0, refl)
  Adds-Keeps s t (inr (x, e)) o =
      let grown : length (s.0 ++ (x ∷ [])) ≡ suc (length s.0) =
        omega (arith, length-append s.0 (x ∷ [])) in
      rw e (rw grown (Ascends-snoc 0 s.1.sessions (length s.0) o), Evolves-append s.0 x, refl)

  set-Keeps :
      (s : State) (arc : ℕ) (a b : PqcSession)
      → get_elem? s.0 arc ≡ some a
      → IsLater a b
      → IsOrderly s
      → Keeps s (set s.0 arc b, s.1)
  set-Keeps s arc a b e later o =
      (rw (length-set s.0 arc b) o, Evolves-set s.0 arc a b e later, refl)

  encrypted :
      (w : World) (arc : ℕ) (f : TelemetryFrame F) (now : ℕ) {r : Result EncryptedFrame} {v : World}
      → encrypt_frame c w arc f now ≡ some (r, v)
      → (a : PqcSession) × (get_elem? w arc ≡ some a)
        × (v ≡ set w arc (Frames.encrypt_frame c a f now).1)
  unfolding encrypt_frame
  encrypted w arc f now h = elim (Option-cases (get_elem? w arc)) [
    | inl none_there ↦ absurd (ground arith)
    | inr (a, there) ↦ (a, there, ground arith)
  ]

  decrypted :
      (w : World) (arc : ℕ) (e : EncryptedFrame) (now : ℕ) {r : Result Bytes} {v : World}
      → decrypt_frame c w arc e now ≡ some (r, v)
      → (a : PqcSession) × (get_elem? w arc ≡ some a)
        × (v ≡ set w arc (Frames.decrypt_frame c a e now).1)
  unfolding decrypt_frame
  decrypted w arc e now h = elim (Option-cases (get_elem? w arc)) [
    | inl none_there ↦ absurd (ground arith)
    | inr (a, there) ↦ (a, there, ground arith)
  ]

  Step-Keeps : (s t : State) → Step c F s t → IsOrderly s → Keeps s t
  unfolding cleanup_expired
  Step-Keeps s t (establishes remote eph_secret random id now) o =
      Adds-Keeps s _ (establish-Adds s remote eph_secret random id now) o
  Step-Keeps s t (accepts kem e id now) o = Adds-Keeps s _ (accept-Adds s kem e id now) o
  Step-Keeps s t (encrypts arc f now h) o =
      let (a, there, v) = encrypted s.0 arc f now h in
      rw v (set-Keeps s arc a _ there (encrypt-IsLater a f now) o)
  Step-Keeps s t (decrypts arc e now h) o =
      let (a, there, v) = decrypted s.0 arc e now h in
      rw v (set-Keeps s arc a _ there (decrypt-IsLater a e now) o)
  Step-Keeps s t (cleans clock) o = (
    Ascends-retain (is_kept s.0 s.1.session_timeout_nanos clock) 0 s.1.sessions (length s.0) o,
    Evolves-refl s.0,
    refl,
  )

  -- Through any history of calls on a manager, failed ones included: it lists sessions that exist, each once, if it
  -- did before; every session that existed is still there under its number with the same identity and keys,
  -- and counters that are not smaller; and the timeout stays.
  pub Reach-Keeps : (s t : State) → Reach c F s t → IsOrderly s → Keeps s t
  Reach-Keeps s t here o = (o, Evolves-refl s.0, refl)
  Reach-Keeps s u (next {t} r step) o =
      let (orderly, evolves, timeout) = Reach-Keeps s t r o in
      let (orderly', evolves', timeout') = Step-Keeps t u step orderly in
      (orderly', Evolves-trans s.0 t.0 u.0 evolves evolves', timeout' ∙ timeout)
