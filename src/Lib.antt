-- ===== src/Lib.antt =====
-- SovereignEdge-TEE-Agent: an edge agent that receives telemetry frames, keeps the recent ones, decides by
-- the quality of the network whether a frame goes to the cloud or to a local model, sends frames over a
-- hybrid post-quantum session, and proves that its actions satisfy a policy.
--
-- Parts and files (paths are from the root of the repository):
-- * Common (crates/common/src/lib.rs): frames, network quality, and the context buffer that evicts its
--   oldest frames. Common.Frame has the records, Common.Quality `is_degraded` and `is_offline`,
--   Common.Buffer the methods of `ContextBuffer` under their names; the two loops of `push` are
--   `evict_bytes` and `evict_frames`, by recursion on the frames.
-- * Agent (crates/edge-agent/src/lib.rs, inference.rs): Agent.State is `EdgeAgent` and its small
--   methods, Agent.Mode the mode machine (`determine_mode`, `transition_mode`,
--   `update_network_quality`), Agent.Process `process_frame` with both inference paths. A method is a
--   function on the state; the callback is the list of the notices that it gets. Agent.Reach is the
--   relation of the states that calls can reach. Agent.History has histories of measurements and frames, and an
--   abstract agent that they are compared with. Agent.Llama is the llama.cpp backend of inference.rs.
--   Agent.Hardware (hardware.rs) has the accelerators, Agent.Hardware.Detect their detection and
--   Agent.Hardware.Sensors their sensors. Agent.Program (main.rs) is the program edge_agent: it detects,
--   loads a model, forces a mode and processes five frames by the functions above.
-- * Pqc (crates/pqc-transport/src/lib.rs): Pqc.Session is `PqcSession`, Pqc.Kem `HybridKem`, Pqc.Manager
--   `PqcTransportManager`. Sessions stand behind `Arc<Mutex<..>>` and are shared by their holders and the
--   manager, so Pqc.Manager keeps them in a store and hands out numbers of it. Pqc.Frames has what
--   the manager's frame methods do to one session, Pqc.Manager.Reach the relation of the states that
--   calls can reach. Pqc.Channel is two sessions over a network that an adversary runs, and Pqc.Network
--   two managers that set up a session over such a network and make any other calls meanwhile.
-- * Zk (crates/zk-proofs/src/lib.rs): Zk.Policy has the policies and the evaluator of their constraints,
--   Zk.Circuit `PolicyCircuit`, Zk.Generator `ZkProofGenerator`; Zk.Generator.Registry reads its maps off
--   the history of the registrations.
-- * Tee (crates/tee-gateway/src/lib.rs): Tee.Backend has the enclave's interface, `SimulatedTee` and
--   `SealedStorage`; Tee.Qwen the requests, the replies and how a response is read from JSON; Tee.Gateway
--   `TeeGateway`. Tee.Gateway.Reach is the relation of the states that calls can reach. Tee.Program
--   (crates/tee-gateway/src/main.rs) is the program tee_gateway: a gateway, one frame, and what is printed.
-- * Helpers (crates/helpers/src/lib.rs, builders.rs, fixtures.rs, time.rs, metrics.rs):
--   Helpers.ZeroCopy is `ZeroCopyBuffer`, Helpers.Builders the three builders with their presets (the setters of the builders of NetworkQuality
--   and FrameMetadata are `quality_..` and `metadata_..`), Helpers.Fixtures the fixtures,
--   Helpers.Time the conversions of clock readings, Helpers.Metrics the placeholder of a registry.
-- * Ingest (crates/xdp-ingest/src/main.rs): Ingest.Umem is `UmemRegion`, Ingest.Socket `XdpSocket` with
--   `receive_loop`, whose body is `receive_round`, Ingest.Daemon what `main` makes of them.
-- * Suite (the unit tests of the crates' files): each test is a function of the numbers, the cipher, the
--   randomness, the clock or the machine that it runs with, into Bool or Option Bool (none for a panic).
--   Suite.Pqc.Passes and its like say in which of these surroundings a test passes. Tests that assert nothing, wait for a
--   thread, or compare `f64` results are left out.
--
-- Conventions. Numbers are ℕ; a `u64` or `usize` is below 2^64 and its sum wraps (`add64`), as in a release
-- build. Text is the list of its bytes (UTF-8). A `HashMap` is an association list (Base.Dict).
-- Loops are structural recursion but for two, which run on fuel: `generate_tokens` makes at most as many
-- rounds as the budget of tokens, so the budget and one suffices, and `receive_loop` stops at the first
-- read of a cleared flag, so the number of that read and one suffices. Time, randomness, the order of a
-- map's iterator and whether the HTTP client can be built are inputs.
--
-- Parameters. `f64` and `f32` are the interface Base.Float.Float; theorems that need its order or its
-- exactness on integers take Base.Float.IsOrdered or IsExactOnInts or IsRounded, which Tests.Floats fills by
-- fixed-point numbers. AES-256-GCM, X25519, ML-KEM-768 and SHA-256 are Pqc.Crypto.Crypto, with the laws
-- IsAead, IsSealing and IsKeyExchange, filled by Tests.Ciphers. Groth16 is
-- Zk.Generator.Backend; a local inference backend is Agent.Inference.InferenceBackend, and the library of
-- the llama.cpp backend Agent.Llama.LlamaCpp; what is read of the
-- machine is Agent.Hardware.Host, and the platform's instants Helpers.Time.Instants; the network and the JSON parser are Tee.Qwen.Web, with the reply to a request as an argument.
--
-- Not modelled: log messages, which only call third-party code; the integration tests under tests/; the
-- parsing of arguments; the scheduling of the XDP daemon's task and its signal, which are a sequence of flag
-- values, and its BPF program, which is C.
pub mod Base
pub mod Common
pub mod Agent
pub mod Pqc
pub mod Zk
pub mod Tee
pub mod Helpers
pub mod Ingest
pub mod Suite
mod Tests
