-- ===== src/Agent/Hardware/Named.antt =====
-- What every detected accelerator has: a device node, and a name.
use sovereign_edge_tee_agent.Base.{ℕ, Bytes, text, true, ◌≡◌, arith, ◌++◌, List, [], ◌∷◌, some}
use sovereign_edge_tee_agent.Base.Utf8.{strip_prefix}
use sovereign_edge_tee_agent.Base.Lines.{starts_with}
use sovereign_edge_tee_agent.Agent.Hardware.{Host, Vendor, is_nvidia, Accelerator}
use sovereign_edge_tee_agent.Agent.Hardware.Detect.{
  nvidia_model_name, drm_gpus, detect_drm_gpus, accel_npus, npu_identity, detect_accel_npus,
  misc_npus, detect_misc_npus, detect_accelerators,
}

module _ {F32 : Type 0} (host : Host F32) where
  -- The path is one of /dev, and only an NVIDIA GPU whose driver gives an empty model has no name.
  pub record IsNamed (a : Accelerator) : Type 0 where
    pub at_node : starts_with (text "/dev/") a.device_path ≡ true
    pub named : a.name ≡ [] → (is_nvidia a.vendor ≡ true) × (nvidia_model_name host ≡ some [])

  abbrev pub AllNamed : List Accelerator → Type 0
  AllNamed [] = Unit {0}
  AllNamed (a ∷ rest) = IsNamed a × AllNamed rest

  AllNamed-append : (xs ys : List Accelerator) → AllNamed xs → AllNamed ys → AllNamed (xs ++ ys)
  AllNamed-append [] ys p q = q
  AllNamed-append (x ∷ xs) ys p q = (p.0, AllNamed-append xs ys p.1 q)

  drm_gpus-AllNamed : (names : List Bytes) → AllNamed (drm_gpus host names)
  unfolding drm_gpus starts_with strip_prefix
  drm_gpus-AllNamed [] = tt
  drm_gpus-AllNamed (n ∷ names) = ground (arith, drm_gpus-AllNamed names)

  accel_npus-AllNamed : (names : List Bytes) → AllNamed (accel_npus host names)
  unfolding accel_npus npu_identity starts_with strip_prefix
  accel_npus-AllNamed [] = tt
  accel_npus-AllNamed (n ∷ names) = ground (arith, accel_npus-AllNamed names)

  misc_npus-AllNamed :
      (prefix : Bytes) (v : Vendor) (c : ℕ) (name : Bytes) (names : List Bytes)
      → AllNamed (misc_npus host prefix v (c ∷ name) names)
  unfolding misc_npus starts_with strip_prefix
  misc_npus-AllNamed prefix v c name [] = tt
  misc_npus-AllNamed prefix v c name (n ∷ names) =
      ground (arith, misc_npus-AllNamed prefix v c name names)

  -- On any machine, every accelerator that is detected has a path under /dev, and a name unless it is an NVIDIA
  -- GPU and the first `Model:` line of the driver is empty.
  pub detect_accelerators-AllNamed : AllNamed (detect_accelerators host)
  unfolding detect_accelerators detect_drm_gpus detect_accel_npus detect_misc_npus
  detect_accelerators-AllNamed = AllNamed-append _ _ (drm_gpus-AllNamed _) (
      AllNamed-append _ _ (accel_npus-AllNamed _)
        (AllNamed-append _ _ (misc_npus-AllNamed _ _ _ _ _) (misc_npus-AllNamed _ _ _ _ _)))
