-- ===== src/Tests/Programs.antt =====
-- The program tee_gateway on concrete arguments, two frames in either order, and a local model.
use sovereign_edge_tee_agent.Base.{
  ℕ, ◌/◌, ◌≡◌, ◌≢◌, ◌⊎◌, ◌↔◌, arith, refl, Bytes, text, true, false, [], Option, some, length,
}
use sovereign_edge_tee_agent.Tee.Qwen.{Web, Request, Reply}
use sovereign_edge_tee_agent.Tee.Gateway.{build_prompt}
use sovereign_edge_tee_agent.Tee.Program.{
  Args, Output, no_key, panicked, printed, key_text, program_frame, run,
}
use sovereign_edge_tee_agent.Tee.Program.Outcome.{Relayed, run_live_lem, run_simulated_lem}
use sovereign_edge_tee_agent.Tests.Tee.{digest, numbers_web, reply}
use sovereign_edge_tee_agent.Common.{TelemetryFrame}
use sovereign_edge_tee_agent.Tee.Backend.{simulated}
use sovereign_edge_tee_agent.Tee.Gateway.{process_frame}
use sovereign_edge_tee_agent.Tee.Gateway.Interleave.{sessions, process_frame_comm}
use sovereign_edge_tee_agent.Agent.Inference.{other}
use sovereign_edge_tee_agent.Agent.State
use sovereign_edge_tee_agent.Agent.State.{Agent, set_local_backend}
use sovereign_edge_tee_agent.Agent.Process.{process_local_inference}
use sovereign_edge_tee_agent.Agent.Llama.Service.{
  llama_backend, IsReported, process_local_inference_lem,
}
use sovereign_edge_tee_agent.Agent.Program.{demo_frame}
use sovereign_edge_tee_agent.Tests.Floats.{fixed}
use sovereign_edge_tee_agent.Tests.Machines.{countdown, small_model}
use sovereign_edge_tee_agent.Tests.Tee.{frame, ready}

abbrev asked : Args
asked = record {
  prompt = text "temp=41C";
  endpoint = text "https://host/v1/";
  model = text "qwen-plus";
  simulate = false;
}

abbrev demo : Args
demo = record asked { simulate = true }

run_live_lem_example :
    let exit = run digest numbers_web ℕ asked (some (text "key")) true reply 3 4 in
    ((exit ≡ panicked) ↔ ((key_text (some (text "key")) ≢ []) × (true ≡ false)))
    × ((exit ≡ no_key) ↔ (key_text (some (text "key")) ≡ []))
    × ((out : Output)
        → exit ≡ printed out
        → Relayed digest numbers_web ℕ reply asked (key_text (some (text "key"))) 3 out)
run_live_lem_example =
    run_live_lem digest numbers_web ℕ reply asked (some (text "key")) true 3 4 refl

run_simulated_lem_example :
    (out : Output) × ((web : Web) (env_key : Option Bytes) (net : Request → Reply) (now : ℕ)
      → (run digest web ℕ demo env_key true net 3 now ≡ printed out)
        × (run digest web ℕ demo env_key false net 3 now ≡ panicked))
    × (out.request_id ≡ text "tee-req-1")
    × (out.model ≡ text "qwen-max")
    × (out.prompt_tokens ≡ length (build_prompt (program_frame {F = ℕ} demo.prompt 3)) / 4)
    × (out.completion_tokens ≡ 50)
run_simulated_lem_example = run_simulated_lem digest ℕ demo 3 refl

abbrev elsewhere : TelemetryFrame ℕ
elsewhere = record frame { source_ip = text "10.0.0.2" }

sources_differ : frame.source_ip ≢ elsewhere.source_ip
sources_differ e = ground arith

process_frame_comm_example :
    let (first, after_f) = process_frame (simulated digest) numbers_web ready reply frame 5 in
    let (second, after_fh) =
      process_frame (simulated digest) numbers_web after_f reply elsewhere 6 in
    let (first', after_h) = process_frame (simulated digest) numbers_web ready reply elsewhere 6 in
    let (second', after_hf) = process_frame (simulated digest) numbers_web after_h reply frame 5 in
    (sessions after_fh ≡ sessions after_hf)
    × (after_fh.processed_frames ≡ after_hf.processed_frames)
    × (ready.live ≡ true → (first ≡ second') × (second ≡ first'))
process_frame_comm_example =
    process_frame_comm (simulated digest) numbers_web ready reply frame elsewhere 5 6 sources_differ

abbrev agent : Agent fixed (llama_backend countdown)
agent =
    set_local_backend fixed (llama_backend countdown) (State.new fixed (llama_backend countdown) 5)
      (other small_model)

installed : agent.local_backend ≡ other small_model
unfolding set_local_backend
installed = refl

process_local_inference_lem_example :
    let (a', result) =
      process_local_inference fixed (llama_backend countdown) agent (demo_frame fixed 0) 3 in
    (a'.local_backend ≡ other small_model)
    × ((result.action ≡ text "INFERENCE_ERROR") ⊎ IsReported countdown fixed small_model result)
process_local_inference_lem_example =
    process_local_inference_lem countdown fixed agent small_model (demo_frame fixed 0) 3 installed
