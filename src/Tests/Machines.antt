-- ===== src/Tests/Machines.antt =====
-- Concrete machines: what is detected and measured on them, a small model, and the program edge_agent.
use sovereign_edge_tee_agent.Base.{
  ℕ, zero, suc, ◌/◌, ◌≡◌, ◌≢◌, ◌⊎◌, ◌↔◌, refl, Bytes, text, Bool, true, false, [], ◌∷◌, List,
  Option, none, some, bytes_eq, if◌then◌else◌, length,
}
use sovereign_edge_tee_agent.Base.Fallible.{Fallible, ok}
use sovereign_edge_tee_agent.Agent.Inference.{
  AgentError, InferenceOutput, InferenceBackend, simulated_infer,
}
use sovereign_edge_tee_agent.Agent.State.{cloud, local}
use sovereign_edge_tee_agent.Agent.Hardware.{Host, gpu, amd, Accelerator, is_nvidia, join}
use sovereign_edge_tee_agent.Agent.Hardware.Detect.{detect_accelerators, entries_of, drm_dir}
use sovereign_edge_tee_agent.Agent.Hardware.Sensors.{
  no_reading, read_sensors, read_nvidia_smi_sensors,
}
use sovereign_edge_tee_agent.Agent.Hardware.Offload.{
  any_offload, Any, IsOffloadCard, offload_available_iff,
}
use sovereign_edge_tee_agent.Agent.Hardware.Readings.{
  temp_among, power_among, busy, read_sensors_lem,
}
use sovereign_edge_tee_agent.Agent.Llama.{LlamaCpp, LlamaCppBackend, llama_infer}
use sovereign_edge_tee_agent.Agent.Llama.Bounds.{IsOutput, llama_infer_terminates}
use sovereign_edge_tee_agent.Agent.Program.{Args, run}
use sovereign_edge_tee_agent.Agent.Program.Stats.{Prints, run_stats}
use sovereign_edge_tee_agent.Tests.Floats.{fixed, fixed-IsOrdered}

-- One card, one connector of it, and one hwmon entry.
abbrev listed : Bytes → Option (List Bytes)
listed path =
    if bytes_eq path drm_dir
    then some (text "card1" ∷ text "card1-DP-1" ∷ [])
    else (if bytes_eq path (text "/sys/class/drm/card1/device/hwmon")
        then some (text "hwmon4" ∷ [])
        else none)

abbrev contents : Bytes → Option Bytes
contents path =
    if bytes_eq path (text "/sys/class/drm/card1/device/vendor")
    then some (text "0x1002")
    else (if bytes_eq path (text "/sys/class/drm/card1/device/hwmon/hwmon4/temp1_input")
        then some (text "*****")
        else none)

-- A number is the length of its text.
abbrev workstation : Host ℕ
workstation = record {
  read_dir = listed;
  read_to_string = contents;
  nvidia_smi = none;
  parse_f32 = λ s. some (length s);
  div_f32 = λ n k. n / suc k;
  show_f32 = λ digits n. n ∷ [];
}

abbrev card : Accelerator
card = record {
  kind = gpu;
  vendor = amd;
  name = text "GPU";
  device_path = text "/dev/dri/card1";
  driver = none;
  sysfs_device = some (text "/sys/class/drm/card1/device");
}

offload_available_iff_example :
    (any_offload (detect_accelerators workstation) ≡ true)
    ↔ Any (IsOffloadCard workstation) (entries_of (workstation.read_dir drm_dir))
offload_available_iff_example = offload_available_iff workstation

hwmon_listed :
    workstation.read_dir (join (text "/sys/class/drm/card1/device") (text "hwmon"))
    ≡ some (text "hwmon4" ∷ [])
unfolding bytes_eq
hwmon_listed = refl

abbrev temp : Option ℕ
temp =
    temp_among workstation (join (text "/sys/class/drm/card1/device") (text "hwmon"))
      (text "hwmon4" ∷ [])

abbrev power : Option ℕ
power =
    power_among workstation (join (text "/sys/class/drm/card1/device") (text "hwmon"))
      (text "hwmon4" ∷ [])

read_sensors_lem_example :
    ((((temp ≢ none) ⊎ (power ≢ none))
        × (read_sensors workstation card ≡ record {
          temp_c = temp;
          power_w = power;
          utilization_pct = busy workstation (text "/sys/class/drm/card1/device");
        }))
      ⊎ ((temp ≡ none)
          × (power ≡ none)
          × (read_sensors workstation card ≡ (
              if is_nvidia card.vendor then read_nvidia_smi_sensors workstation else no_reading))))
read_sensors_lem_example = read_sensors_lem workstation card refl hwmon_listed

abbrev last : ℕ → List ℕ → ℕ
last ctx [] = ctx
last ctx (t ∷ ts) = t

abbrev below : ℕ → ℕ
below zero = 0
below (suc n) = n

abbrev is_zero : ℕ → Bool
is_zero zero = true
is_zero (suc n) = false

-- A model that counts down from the length of the prompt; a token is a number, and zero ends.
abbrev pub countdown : LlamaCpp
countdown = record {
  Model = Unit {0};
  Context = ℕ;
  Batch = List ℕ;
  Token = ℕ;
  Sampler = Unit {0};
  Decoder = Unit {0};
  init = ok tt;
  load_from_file = λ path layers. ok tt;
  new_context = λ model size. ok 0;
  str_to_token = λ model prompt. ok (length prompt ∷ []);
  new_batch = λ size. [];
  add = λ batch token pos logits. ok (token ∷ batch);
  clear = λ batch. [];
  n_tokens = length;
  decode = λ ctx batch. ok (last ctx batch);
  greedy = tt;
  sample = λ sampler ctx i. (below ctx, tt);
  is_eog_token = λ model token. is_zero token;
  new_decoder = tt;
  token_to_piece = λ model token decoder. (ok (token ∷ []), tt);
}

abbrev pub small_model : LlamaCppBackend countdown
small_model = record { model = tt; model_name = text "countdown" }

llama_infer_terminates_example :
    (r : Fallible AgentError InferenceOutput) × (llama_infer countdown 33 small_model
        (text "abcd")
        32
      ≡ some r)
    × IsOutput countdown small_model (text "abcd") 32 r
llama_infer_terminates_example = llama_infer_terminates countdown small_model (text "abcd") 32

abbrev no_backend : InferenceBackend
no_backend = record {
  Backend = Unit {0};
  name = λ b. text "none";
  infer = λ b prompt n. (simulated_infer prompt n, b);
}

abbrev no_load : Bytes → ℕ → Fallible AgentError (Unit {0})
no_load path layers = ok tt

abbrev arguments : Args
arguments = record {
  probe_interval = 5;
  mode = text "degraded";
  port = 47821;
  model = some (text "model.gguf");
  gpu_layers = 20;
}

run_stats_example :
    let (a, rs) = run fixed no_backend no_load arguments workstation 9 (λ i. i) (true ∷ []) in
    (arguments.mode ≡ text "offline" → Prints fixed no_backend a rs local 1)
    × (arguments.mode ≡ text "degraded" → Prints fixed no_backend a rs cloud 1)
    × (arguments.mode ≢ text "offline"
        → arguments.mode ≢ text "degraded"
        → Prints fixed no_backend a rs cloud 0)
run_stats_example =
    run_stats fixed fixed-IsOrdered no_backend no_load arguments workstation 9 (λ i. i) (true ∷ [])
