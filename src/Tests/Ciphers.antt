-- ===== src/Tests/Ciphers.antt =====
-- A concrete `Crypto`: the ciphertext is the message behind its nonce and associated data.
use sovereign_edge_tee_agent.Base.{ℕ, ◌+◌, ◌≡◌, ◌≢◌, refl, sym, ◌∙◌, arith, Bytes, none, some}
use sovereign_edge_tee_agent.Base.{
  [], ◌∷◌, ◌++◌, length, replicate, true, Option-cases, inl, inr, ◌⊎◌, append_assoc,
}
use sovereign_edge_tee_agent.Base.Utf8.{strip_prefix}
use sovereign_edge_tee_agent.Pqc.Crypto.{Crypto, IsAead, IsSealing, IsKeyExchange}

abbrev header : Bytes → Bytes → Bytes
header n a = length n ∷ n ++ (length a ∷ a)

abbrev sum_bytes : Bytes → Bytes → Bytes
sum_bytes [] ys = []
sum_bytes (x ∷ xs) [] = []
sum_bytes (x ∷ xs) (y ∷ ys) = (x + y) ∷ sum_bytes xs ys

abbrev first : Bytes → ℕ
first [] = 0
first (x ∷ xs) = x

abbrev pub plain : Crypto
plain = record {
  sha256 = λ s. s;
  seal = λ k n m a. some (header n a ++ m);
  unseal = λ k n ct a. strip_prefix (header n a) ct;
  aead_error = [];
  x25519_public = λ s. s;
  diffie_hellman = sum_bytes;
  mlkem_keypair = λ r. (r, replicate 4 7);
  mlkem_key_size = 4;
  mlkem_ciphertext_size = 5;
  mlkem_key_check = λ k. true;
  encapsulate = λ k e. (replicate 5 (first e), replicate 32 (first e));
  decapsulate = λ s ct. replicate 32 (first ct);
}

strip_prefix-append : (p m : Bytes) → strip_prefix p (p ++ m) ≡ some m
unfolding strip_prefix
strip_prefix-append [] m = refl
strip_prefix-append (x ∷ p) m = ground (arith, strip_prefix-append p m)

strip_prefix-some : (p s : Bytes) {m : Bytes} → strip_prefix p s ≡ some m → s ≡ p ++ m
unfolding strip_prefix
strip_prefix-some [] s e = cc
strip_prefix-some (x ∷ p) [] e = absurd (cc)
strip_prefix-some (x ∷ p) (y ∷ s) {m} e = ground (arith, strip_prefix-some p s {m = m})

append_split :
    (xs ys : Bytes) {s t : Bytes} → length xs ≡ length ys → xs ++ s ≡ ys ++ t → (xs ≡ ys) × (s ≡ t)
append_split [] [] l e = (refl, e)
append_split [] (y ∷ ys) l e = absurd (omega arith)
append_split (x ∷ xs) [] l e = absurd (omega arith)
append_split (x ∷ xs) (y ∷ ys) {s} {t} l e =
    let (p, q) = append_split xs ys {s = s} {t = t} (omega arith) (cc) in (cc, q)

header_injective :
    (n n' a a' m m' : Bytes) → header n a ++ m ≡ header n' a' ++ m' → (n ≡ n') × (a ≡ a')
header_injective n n' a a' m m' e =
    let inner : (n ++ (length a ∷ a)) ++ m ≡ (n' ++ (length a' ∷ a')) ++ m' = cc in
    let e' : n ++ (length a ∷ a ++ m) ≡ n' ++ (length a' ∷ a' ++ m') =
      sym (append_assoc n (length a ∷ a) m) ∙ (inner ∙ append_assoc n' (length a' ∷ a') m') in
    let (p, q) = append_split n n' (cc) e' in
    let (r, _) = append_split a a' {s = m} {t = m'} (cc) (cc) in (p, r)

other_header :
    (n n' a a' m : Bytes)
    → (n ≢ n') ⊎ (a ≢ a')
    → strip_prefix (header n' a') (header n a ++ m) ≡ none
other_header n n' a a' m h = elim (Option-cases (strip_prefix (header n' a') (header n a ++ m))) [
  | inl e ↦ e
  | inr (m', e) ↦
      let (p, q) =
        header_injective n n' a a' m m' (strip_prefix-some (header n' a') (header n a ++ m) e) in
      elim h [ inl x ↦ absurd (x p) | inr x ↦ absurd (x q) ]
]

some_eq : {x y : Bytes} → some x ≡ some y → y ≡ x
some_eq e = cc

pub plain-IsAead : IsAead plain
plain-IsAead = record {
  unseal-seal = λ k n m a e. rw (some_eq e) (strip_prefix-append (header n a) m);
  unseal_other_nonce = λ k n n' m a a' e ne. rw (some_eq e) (other_header n n' a a' m (inl ne));
  unseal_other_data = λ k n m a a' e ne. rw (some_eq e) (other_header n n a a' m (inr ne));
}

pub plain-IsSealing : IsSealing plain
plain-IsSealing = record { seal-some = λ k n m a _ _. (header n a ++ m, refl) }

sum_bytes_comm : (xs ys : Bytes) → sum_bytes xs ys ≡ sum_bytes ys xs
sum_bytes_comm [] [] = refl
sum_bytes_comm [] (y ∷ ys) = refl
sum_bytes_comm (x ∷ xs) [] = refl
sum_bytes_comm (x ∷ xs) (y ∷ ys) = ground (arith, sum_bytes_comm xs ys)

pub plain-IsKeyExchange : IsKeyExchange plain
plain-IsKeyExchange = record {
  dh_comm = sum_bytes_comm;
  key_size = λ r. refl;
  key_check = λ r. refl;
  ciphertext_size = λ r e. refl;
  secret_size = λ r e. refl;
  decapsulate-encapsulate = λ r e. refl;
}
