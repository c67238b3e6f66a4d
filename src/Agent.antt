-- ===== src/Agent.antt =====
-- crates/edge-agent: the agent's state machine (`State`, `Mode`, `Process`) and its inference
-- backends (`Inference`), with the proofs about them below.
pub mod Inference
pub mod State
pub mod Mode
pub mod Process
pub mod Reach
pub mod History
pub mod Hardware
pub mod Llama
pub mod Program
