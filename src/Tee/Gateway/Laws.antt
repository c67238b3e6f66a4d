-- ===== src/Tee/Gateway/Laws.antt =====
-- Initialisation, and what a frame changes and gives.
use sovereign_edge_tee_agent.Base.{
  ℕ, ◌≡◌, ◌≢◌, ◌⊎◌, inl, inr, refl, ap, arith, Bytes, text, true, false, [], ◌∷◌, add64, none, some,
  bytes_eq_iff,
}
use sovereign_edge_tee_agent.Base.Utf8.{from_utf8_lossy}
use sovereign_edge_tee_agent.Base.Dict.{lookup, lookup-insert, lookup-insert_self}
use sovereign_edge_tee_agent.Common.{TelemetryFrame}
use sovereign_edge_tee_agent.Tee.Error.{api_key_not_initialized, unsealing_failed, ok, err}
use sovereign_edge_tee_agent.Tee.Backend.{
  TeeBackend, SimulatedTee, simulated, simulated_seal, simulated_unseal, simulated_attest, mask,
  seal, unseal, verify_attestation,
}
use sovereign_edge_tee_agent.Tee.Backend.Roundtrip.{mask_twice}
use sovereign_edge_tee_agent.Tee.Qwen.{Web, Request, Reply}
use sovereign_edge_tee_agent.Tee.Gateway.{
  TeeGateway, counted, update_sessions, initialize, call_qwen_api, process_frame, stats,
  is_initialized,
}

module _ (sha256 : Bytes → Bytes) (g : TeeGateway SimulatedTee) where
  -- With the simulated enclave, `initialize` panics exactly when no HTTP client can be built, and succeeds otherwise:
  -- then the gateway counts as initialised, its API key is the token read as UTF-8 and its client is there; the sealed
  -- storage gives the token back, but an empty token it reports as missing.
  pub initialize-unseal :
      (token : Bytes)
      → (initialize (simulated sha256) g token false ≡ none)
        × (g' : TeeGateway SimulatedTee) × (initialize (simulated sha256) g token true
            ≡ some (ok tt, g'))
        × (is_initialized (simulated sha256) g' ≡ true)
        × (g'.qwen_api_key ≡ some (from_utf8_lossy token))
        × (g'.http_client ≡ true)
        × (((token ≢ []) × (unseal (simulated sha256) g'.storage ≡ ok token))
            ⊎ ((token ≡ [])
                × (unseal (simulated sha256) g'.storage
                    ≡ err (unsealing_failed (text "No sealed data available")))))
  unfolding initialize verify_attestation seal unseal is_initialized simulated_attest simulated_seal
      simulated_unseal mask
  initialize-unseal [] = (refl, _, refl, refl, refl, refl, inr (refl, refl))
  initialize-unseal (b ∷ token) = (
    refl,
    _,
    refl,
    refl,
    refl,
    refl,
    inl ((λ e. cc e), ap ok (mask_twice g.storage.tee.encryption_key 0 (b ∷ token))),
  )

module _ (tb : TeeBackend) (web : Web) where
  open tb use {Tee}

  -- Whatever the network answers, and also where the result is an error, a frame is counted, in
  -- total and for its source, where the time is noted; the entries of other sources, the storage,
  -- the key, the client and the live flag stay.
  pub process_frame_counts :
      {F : Type 0} (g : TeeGateway Tee) (net : Request → Reply) (f : TelemetryFrame F) (now : ℕ)
      → let g' = (process_frame tb web g net f now).1 in
        (g'.processed_frames ≡ add64 g.processed_frames 1)
        × (lookup f.source_ip g'.session_cache
            ≡ some (counted now (lookup f.source_ip g.session_cache)))
        × ((other : Bytes)
            → other ≢ f.source_ip
            → lookup other g'.session_cache ≡ lookup other g.session_cache)
        × (g'.storage ≡ g.storage)
        × (g'.qwen_api_key ≡ g.qwen_api_key)
        × (g'.live ≡ g.live)
        × (g'.http_client ≡ g.http_client)
  unfolding process_frame update_sessions
  process_frame_counts g net f now = (
    refl,
    lookup-insert_self f.source_ip _ g.session_cache,
    (λ other n. ground (
      arith,
      lookup-insert f.source_ip other (counted now (lookup f.source_ip g.session_cache))
          g.session_cache,
      bytes_eq_iff f.source_ip other,
    )),
    refl,
    refl,
    refl,
    refl,
  )

  -- Before `initialize` a frame gives the error of the missing key, whatever the network would answer,
  -- and the statistics count one more API call.
  pub process_frame_uninitialized :
      {F : Type 0} (g : TeeGateway Tee) (net : Request → Reply) (f : TelemetryFrame F) (now : ℕ)
      → g.qwen_api_key ≡ none
      → let (r, g') = process_frame tb web g net f now in
        (r ≡ err api_key_not_initialized)
        × ((stats tb g').api_calls ≡ add64 (stats tb g).api_calls 1)
  unfolding process_frame call_qwen_api stats
  process_frame_uninitialized g net f now e = (rw e refl, refl)
