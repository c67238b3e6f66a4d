-- ===== src/Tee/Gateway/Reach.antt =====
-- The states of a gateway that its calls can reach, and what holds in them.
use sovereign_edge_tee_agent.Base.{
  ℕ, ◌+◌, ◌%◌, ◌^◌, ◌≡◌, ◌⊎◌, inl, refl, arith, Bytes, Bool, true, false, [], ◌∷◌, none, some,
}
use sovereign_edge_tee_agent.Base.Dict.{Dict, lookup, insert}
use sovereign_edge_tee_agent.Common.{TelemetryFrame}
use sovereign_edge_tee_agent.Tee.Error.{Result}
use sovereign_edge_tee_agent.Tee.Backend.{TeeBackend, new_storage, seal, verify_attestation}
use sovereign_edge_tee_agent.Tee.Qwen.{Web, Request, Reply}
use sovereign_edge_tee_agent.Tee.Gateway.{
  TeeGateway, SessionState, update_sessions, new, new_live, initialize, process_frame,
  is_initialized,
}

-- The frames counted over all sources.
abbrev pub total_count : Dict SessionState → ℕ
total_count [] = 0
total_count ((source, s) ∷ others) = s.frame_count + total_count others

update_sessions_total :
    (cache : Dict SessionState) (source : Bytes) (now : ℕ)
    → total_count (update_sessions cache source now) % 2 ^ 64 ≡ (total_count cache + 1) % 2 ^ 64
unfolding update_sessions lookup insert
update_sessions_total [] source now = refl
update_sessions_total ((at, s) ∷ others) source now =
    ground (arith, update_sessions_total others source now)

module _ (tb : TeeBackend) (web : Web) (F : Type 0) where
  open tb use {Tee}

  -- A call of a method that changes the state.
  pub data Call (g : TeeGateway Tee) : TeeGateway Tee → Type 0 where
    initializes :
        (token : Bytes) (built : Bool) {r : Result (Unit {0})} {h : TeeGateway Tee}
        → initialize tb g token built ≡ some (r, h)
        → Call g h
    processes :
        (net : Request → Reply) (f : TelemetryFrame F) (now : ℕ)
        → Call g (process_frame tb web g net f now).1

  pub data Reached : TeeGateway Tee → Type 0 where
    starts : (tee : Tee) (endpoint : Bytes) → Reached (new tb tee endpoint)
    starts_live : (tee : Tee) (endpoint model : Bytes) → Reached (new_live tb tee endpoint model)
    calls : {g h : TeeGateway Tee} → Reached g → Call g h → Reached h

  pub record IsSound (g : TeeGateway Tee) : Type 0 where
    pub keyed :
        ((g.qwen_api_key ≡ none) × (g.http_client ≡ false))
        ⊎ ((is_initialized tb g ≡ true) × (g.http_client ≡ true))
    pub counts : total_count g.session_cache % 2 ^ 64 ≡ g.processed_frames

  initialize_keyed :
      (g h : TeeGateway Tee) (token : Bytes) (built : Bool) {r : Result (Unit {0})}
      → initialize tb g token built ≡ some (r, h)
      → IsSound g
      → IsSound h
  unfolding initialize verify_attestation seal is_initialized
  initialize_keyed g h token built e i = record {
    keyed = ground (arith, i.keyed);
    counts = ground (arith, i.counts);
  }

  process_frame-IsSound :
      (g : TeeGateway Tee) (net : Request → Reply) (f : TelemetryFrame F) (now : ℕ)
      → IsSound g
      → IsSound (process_frame tb web g net f now).1
  unfolding process_frame is_initialized
  process_frame-IsSound g net f now i = record {
    keyed = i.keyed;
    counts = omega (arith, i.counts, update_sessions_total g.session_cache f.source_ip now);
  }

  -- In every state that calls reach, whatever the enclave and the network do and whether a client can be built: a gateway has neither an API
  -- key nor an HTTP client, or it is initialised and has a client; and the frames counted for the sources are
  -- together, modulo 2^64, the processed frames.
  pub Reached-IsSound : {g : TeeGateway Tee} → Reached g → IsSound g
  unfolding new new_live new_storage
  Reached-IsSound (starts tee endpoint) = record { keyed = inl (refl, refl); counts = refl }
  Reached-IsSound (starts_live tee endpoint model) = record {
    keyed = inl (refl, refl);
    counts = refl;
  }
  Reached-IsSound (calls {g = g} {h = h} r (initializes token built e)) =
      initialize_keyed g h token built e (Reached-IsSound r)
  Reached-IsSound (calls {g = g} r (processes net f now)) =
      process_frame-IsSound g net f now (Reached-IsSound r)
