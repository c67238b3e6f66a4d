-- ===== src/Pqc/Session/Nonces.antt =====
-- The nonce discipline of `PqcSession::encrypt`.
use sovereign_edge_tee_agent.Base.{
  ℕ, ◌+◌, ◌*◌, ◌^◌, ◌≤◌, ◌<◌, ◌≡◌, ◌≢◌, refl, ap, ◌∙◌, length, ◌⊎◌, inl, inr,
}
use sovereign_edge_tee_agent.Base.{
  Bytes, List, [], ◌∷◌, some, arith, le_bytes, leb, Bool-cases, Option-cases,
}
use sovereign_edge_tee_agent.Pqc.Error.{
  PqcError, Result, ok, err, nonce_exhausted, encryption_failed,
}
use sovereign_edge_tee_agent.Pqc.Crypto.{Crypto}
use sovereign_edge_tee_agent.Pqc.Session.{PqcSession, nonce_bytes, encrypt}

-- The number that little-endian bytes stand for.
abbrev pub value : Bytes → ℕ
value [] = 0
value (b ∷ bs) = b + 256 * value bs

-- The first bytes give the number modulo their range.
value-nonce_bytes : (n : ℕ) → n < 2 ^ 64 → value (nonce_bytes n) ≡ n
unfolding nonce_bytes le_bytes
value-nonce_bytes n h = omega arith

-- Counters below the limit have different nonces.
pub nonce_bytes_injective :
    (m n : ℕ) → m < 2 ^ 64 → n < 2 ^ 64 → nonce_bytes m ≡ nonce_bytes n → m ≡ n
nonce_bytes_injective m n h k e =
    omega (arith, value-nonce_bytes m h, value-nonce_bytes n k, ap value e)

-- A predicate of every element, and of every pair of elements.
abbrev All : {A : Type 0} → (A → Type 0) → List A → Type 0
All P [] = Unit {0}
All P (x ∷ xs) = P x × All P xs

abbrev pub Distinct : {A : Type 0} → List A → Type 0
Distinct [] = Unit {0}
Distinct (x ∷ xs) = All (λ y. x ≢ y) xs × Distinct xs

All-mono :
    {A : Type 0} (P Q : A → Type 0) → ((x : A) → P x → Q x) → (xs : List A) → All P xs → All Q xs
All-mono P Q h [] a = tt
All-mono P Q h (x ∷ xs) a = (h x a.0, All-mono P Q h xs a.1)

module _ (c : Crypto) where
  -- A history of `encrypt` calls (message, associated data, time): their results, and the session after it.
  pub encrypt_all : PqcSession → List (Bytes × Bytes × ℕ) → List (Result Bytes) × PqcSession
  encrypt_all s [] = ([], s)
  encrypt_all s ((m, a, now) ∷ calls) =
      let (r, s') = encrypt c s m a now in let (rs, t) = encrypt_all s' calls in (r ∷ rs, t)

  -- Each ciphertext is what the cipher seals of its call's message under the key and its own of the nonces.
  abbrev pub IsSealedUnder :
      Bytes → List (Bytes × Bytes × ℕ) → List (Result Bytes) → List Bytes → Type 0
  IsSealedUnder key [] [] [] = Unit {0}
  IsSealedUnder key ((m, a, now) ∷ calls) (ok ct ∷ rs) (n ∷ ns) =
      (c.seal key n m a ≡ some ct) × IsSealedUnder key calls rs ns
  IsSealedUnder key ((m, a, now) ∷ calls) (err e ∷ rs) ns = IsSealedUnder key calls rs ns
  IsSealedUnder key _ _ _ = ⊥

  -- A nonce that a session may still use: that of a counter from its own up to the limit.
  abbrev IsAhead : PqcSession → Bytes → Type 0
  IsAhead s nonce = (n : ℕ) × (s.send_nonce ≤ n) × (n < 2 ^ 64) × (nonce ≡ nonce_bytes n)

  -- What one call does to the counter.
  encrypt_counter :
      (s : PqcSession) (m a : Bytes) (now : ℕ)
      → let (r, s') = encrypt c s m a now in
        ((ct : Bytes) × (r ≡ ok ct)
          × (c.seal s.send_key (nonce_bytes s.send_nonce) m a ≡ some ct)
          × (s.send_nonce < 2 ^ 64)
          × (s'.send_nonce ≡ s.send_nonce + 1)
          × (s'.send_key ≡ s.send_key))
        ⊎ ((e : PqcError) × (r ≡ err e) × (s' ≡ s))
  unfolding encrypt
  encrypt_counter s m a now =
      elim (Option-cases (c.seal s.send_key (nonce_bytes s.send_nonce) m a)) [
        | inl f ↦ inr (elim (Bool-cases (leb (2 ^ 64) s.send_nonce)) [
          | inl e ↦ (nonce_exhausted s.session_id, ground arith, ground arith)
          | inr e ↦ (encryption_failed c.aead_error, ground arith, ground arith)
        ])
        | inr (ct, f) ↦ elim (Bool-cases (leb (2 ^ 64) s.send_nonce)) [
          | inl e ↦ inr (nonce_exhausted s.session_id, ground arith, ground arith)
          | inr e ↦ inl (ct, ground arith, f, ground arith, ground arith, ground arith)
        ]
      ]

  -- The nonces of a history, all ahead of the session before it.
  abbrev Uses : PqcSession → List (Bytes × Bytes × ℕ) → Type 0
  Uses s calls =
      (ns : List Bytes) × IsSealedUnder s.send_key calls (encrypt_all s calls).0 ns
      × Distinct ns
      × ((encrypt_all s calls).1.send_nonce ≡ s.send_nonce + length ns)
      × All (IsAhead s) ns

  uses : (s : PqcSession) (calls : List (Bytes × Bytes × ℕ)) → Uses s calls
  unfolding encrypt_all
  uses s [] = ([], tt, tt, omega arith, tt)
  uses s ((m, a, now) ∷ calls) =
      let t = (encrypt c s m a now).1 in
      let (ns, under, apart, count, ahead) = uses t calls in
      elim (encrypt_counter s m a now) [
        | inl (ct, e, sealed, h, k, key) ↦ (
          nonce_bytes s.send_nonce ∷ ns,
          rw e (sealed, rw key at under),
          (
            All-mono (IsAhead t) _
                (λ x w e'. omega (arith, nonce_bytes_injective s.send_nonce w.0 h w.2 (e' ∙ w.3)))
                ns ahead,
            apart,
          ),
          omega (arith, count, k),
          (
            (s.send_nonce, omega arith, h, refl),
            All-mono (IsAhead t) (IsAhead s) (λ x w. (w.0, omega (arith, k, w.1), w.2, w.3)) ns
                ahead,
          ),
        )
        | inr (e, r, q) ↦ (
          ns,
          rw r (rw (ap (λ (t : PqcSession). t.send_key) q) at under),
          apart,
          omega (arith, count, ap (λ (t : PqcSession). t.send_nonce) q),
          All-mono (IsAhead t) (IsAhead s)
              (λ x w. (w.0, omega (arith, ap (λ (t : PqcSession). t.send_nonce) q, w.1), w.2, w.3))
              ns ahead,
        )
      ]

  -- In any history of encryptions of a session, whatever the cipher is: every ciphertext is what the cipher seals of
  -- the message and the associated data of its call, under the session's key and a nonce of its own, and no two of
  -- these nonces are the same. The counter moves by one for each ciphertext, and by none for a call that fails.
  pub encrypt_all-Distinct :
      (s : PqcSession) (calls : List (Bytes × Bytes × ℕ))
      → (ns : List Bytes) × IsSealedUnder s.send_key calls (encrypt_all s calls).0 ns
        × Distinct ns
        × ((encrypt_all s calls).1.send_nonce ≡ s.send_nonce + length ns)
  encrypt_all-Distinct s calls =
      let (ns, under, apart, count, _) = uses s calls in (ns, under, apart, count)
