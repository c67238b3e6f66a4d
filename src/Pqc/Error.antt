-- ===== src/Pqc/Error.antt =====
-- `PqcError` and `Result` of crates/pqc-transport/src/lib.rs. The variant `Io` is never built.
use sovereign_edge_tee_agent.Base.{ℕ, Bytes}
use sovereign_edge_tee_agent.Base.Fallible.{Fallible}
pub use sovereign_edge_tee_agent.Base.Fallible.{ok, err, or_fail, ◌>>=◌}

pub data PqcError : Type 0 where
  key_exchange_failed encapsulation_failed decapsulation_failed : PqcError
  encryption_failed decryption_failed : Bytes → PqcError
  invalid_key_size : ℕ → ℕ → PqcError
  invalid_mlkem_key : PqcError
  nonce_exhausted : ℕ → PqcError
  session_expired : PqcError

abbrev pub Result : Type 0 → Type 0
Result A = Fallible PqcError A
