-- ===== src/Pqc/Manager/Store.antt =====
-- The store of sessions and the numbers that a manager lists: what growing, writing and filtering keep.
use sovereign_edge_tee_agent.Base.{
  ℕ, zero, suc, ◌≤◌, ◌≡◌, ◌≢◌, inl, inr, refl, sym, ap, ◌∙◌, arith, Bool, List, [], ◌∷◌, ◌++◌, some,
  length, get_elem?, set, get_elem?-set_self, get_elem?-set_ne, get_elem?-lt, if◌then◌else◌,
  Bool-cases, ◌==◌, ==_iff,
}
use sovereign_edge_tee_agent.Pqc.Session.{PqcSession}
use sovereign_edge_tee_agent.Pqc.Manager.{World, PqcTransportManager, retain}

-- The sessions that exist, and the manager.
abbrev pub State : Type 0
State = World × PqcTransportManager

-- Distinct numbers in ascending order, from `low` on and below `high`.
abbrev pub Ascends : ℕ → List ℕ → ℕ → Type 0
Ascends low [] high = low ≤ high
Ascends low (x ∷ xs) high = (low ≤ x) × Ascends (suc x) xs high

Ascends-weaken :
    (low : ℕ) (xs : List ℕ) (high : ℕ) → Ascends (suc low) xs high → Ascends low xs high
Ascends-weaken low [] high h = omega (arith, h)
Ascends-weaken low (x ∷ xs) high h = (omega (arith, h.0), h.1)

Ascends-lower :
    (low x : ℕ) (xs : List ℕ) (high : ℕ) → low ≤ x → Ascends x xs high → Ascends low xs high
Ascends-lower low x [] high k h = omega (arith, h)
Ascends-lower low x (y ∷ xs) high k h = (omega (arith, h.0), h.1)

pub Ascends-snoc :
    (low : ℕ) (xs : List ℕ) (high : ℕ)
    → Ascends low xs high
    → Ascends low (xs ++ (high ∷ [])) (suc high)
Ascends-snoc low [] high h = (h, omega arith)
Ascends-snoc low (x ∷ xs) high h = (h.0, Ascends-snoc (suc x) xs high h.1)

pub Ascends-retain :
    (keep : ℕ → Bool) (low : ℕ) (xs : List ℕ) (high : ℕ)
    → Ascends low xs high
    → Ascends low (retain keep xs) high
unfolding retain
Ascends-retain keep low [] high h = h
Ascends-retain keep low (x ∷ xs) high h = elim (Bool-cases (keep x)) [
  | inl e ↦ rw (e, if◌then◌else◌) (h.0, Ascends-retain keep (suc x) xs high h.1)
  | inr e ↦
      rw (e, if◌then◌else◌)
        (Ascends-retain keep low xs high
          (Ascends-lower low (suc x) xs high (omega (arith, h.0)) h.1))
]

-- The manager's sessions exist, and each is there once.
abbrev pub IsOrderly : State → Type 0
IsOrderly s = Ascends 0 s.1.sessions (length s.0)

-- The same session later: its identity and keys stay, and its counters never go back.
pub record IsLater (s t : PqcSession) : Type 0 where
  pub id : t.session_id ≡ s.session_id
  pub send_key : t.send_key ≡ s.send_key
  pub recv_key : t.recv_key ≡ s.recv_key
  pub sends : s.send_nonce ≤ t.send_nonce
  pub receives : s.recv_nonce ≤ t.recv_nonce

abbrev pub Evolves : World → World → Type 0
Evolves w v =
    (i : ℕ) (s : PqcSession)
    → get_elem? w i ≡ some s
    → (t : PqcSession) × (get_elem? v i ≡ some t) × IsLater s t

IsLater-refl : (s : PqcSession) → IsLater s s
IsLater-refl s = record {
  id = refl;
  send_key = refl;
  recv_key = refl;
  sends = omega arith;
  receives = omega arith;
}

IsLater-trans : {s t u : PqcSession} → IsLater s t → IsLater t u → IsLater s u
IsLater-trans a b = record {
  id = b.id ∙ a.id;
  send_key = b.send_key ∙ a.send_key;
  recv_key = b.recv_key ∙ a.recv_key;
  sends = omega (arith, a.sends, b.sends);
  receives = omega (arith, a.receives, b.receives);
}

pub Evolves-refl : (w : World) → Evolves w w
Evolves-refl w i s e = (s, e, IsLater-refl s)

pub Evolves-trans : (u v w : World) → Evolves u v → Evolves v w → Evolves u w
Evolves-trans u v w a b i s e =
    let (t, at, later) = a i s e in
    let (r, there, more) = b i t at in (r, there, IsLater-trans later more)

get_elem?-append :
    (w : World) (x : PqcSession) (i : ℕ) {s : PqcSession}
    → get_elem? w i ≡ some s
    → get_elem? (w ++ (x ∷ [])) i ≡ some s
get_elem?-append [] x i e = absurd (cc)
get_elem?-append (y ∷ w) x zero e = e
get_elem?-append (y ∷ w) x (suc i) e = get_elem?-append w x i e

pub Evolves-append : (w : World) (x : PqcSession) → Evolves w (w ++ (x ∷ []))
Evolves-append w x i s e = (s, get_elem?-append w x i e, IsLater-refl s)

pub Evolves-set :
    (w : World) (arc : ℕ) (a b : PqcSession)
    → get_elem? w arc ≡ some a
    → IsLater a b
    → Evolves w (set w arc b)
Evolves-set w arc a b ea later i s e = elim (Bool-cases (arc == i)) [
  | inl same ↦
      let here : arc ≡ i = (==_iff arc i).0 same in
      let there : get_elem? w i ≡ some a = ap (get_elem? w) (sym here) ∙ ea in
      let held : a ≡ s = cc (sym there ∙ e) in
      (
        b,
        ap (get_elem? (set w arc b)) (sym here)
            ∙ get_elem?-set_self w arc b (get_elem?-lt w arc ea),
        rw (← held) later,
      )
  | inr other ↦
      let apart : arc ≢ i = λ q. cc (sym other ∙ (==_iff arc i).1 q) in
      (s, get_elem?-set_ne w b apart ∙ e, IsLater-refl s)
]
