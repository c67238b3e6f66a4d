-- ===== src/Agent/Hardware/Detect.antt =====
-- The detection of crates/edge-agent/src/hardware.rs: each loop over directory entries is a recursion on
-- their names.
use sovereign_edge_tee_agent.Base.{
  Bytes, text, Bool, not, ◌&&◌, ◌++◌, List, [], ◌∷◌, Option, none, some, bytes_eq, if◌then◌else◌,
}
use sovereign_edge_tee_agent.Base.Utf8.{trim, strip_prefix, from_utf8_lossy}
use sovereign_edge_tee_agent.Base.Lines.{lines, starts_with, contains}
use sovereign_edge_tee_agent.Agent.Hardware.{
  Host, gpu, npu, Vendor, amd, intel, qualcomm, rockchip, hailo, habana, other, is_nvidia,
  Accelerator, vendor_from_pci_id, join,
}

-- `find_map`, `unwrap_or_default`, `Option::map`
abbrev pub or_empty : Option Bytes → Bytes
or_empty none = []
or_empty (some s) = s

abbrev pub map_option : {A B : Type 0} → (A → B) → Option A → Option B
map_option f none = none
map_option f (some a) = some (f a)

abbrev pub entries_of : Option (List Bytes) → List Bytes
entries_of none = []
entries_of (some names) = names

-- The first line with this prefix, without it.
unfoldable pub find_line : Bytes → List Bytes → Option Bytes
find_line prefix [] = none
find_line prefix (l ∷ ls) =
    let later = find_line prefix ls in
    elim (strip_prefix prefix l) [ some rest ↦ some rest | none ↦ later ]

-- The test for the entries `card<N>` and `accel<N>`; 45 is the dash.
unfoldable pub is_device : Bytes → Bytes → Bool
is_device prefix name = starts_with prefix name && not (contains 45 name)

abbrev pub drm_dir : Bytes
drm_dir = text "/sys/class/drm"

module _ {F32 : Type 0} (host : Host F32) where
  open host use {read_dir, read_to_string}

  unfoldable pub sysfs_read : Bytes → Option Bytes
  sysfs_read path = map_option trim (read_to_string path)

  abbrev value_in : Bytes → Option Bytes → Option Bytes
  value_in key none = none
  value_in key (some content) = find_line (key ++ text "=") (lines content)

  unfoldable pub uevent_value : Bytes → Bytes → Option Bytes
  uevent_value uevent_path key = value_in key (read_to_string uevent_path)

  -- `nvidia_model_name`: a file that cannot be read ends the search.
  abbrev model_in : Bytes → Option Bytes → Option Bytes → Option Bytes
  model_in dir none later = none
  model_in dir (some info) later = elim (find_line (text "Model:") (lines info)) [
    | some model ↦ some (trim model)
    | none ↦ later
  ]

  unfoldable pub model_among : Bytes → List Bytes → Option Bytes
  model_among dir [] = none
  model_among dir (name ∷ names) =
      model_in dir (read_to_string (join (join dir name) (text "information")))
        (model_among dir names)

  unfoldable pub nvidia_model_name : Option Bytes
  nvidia_model_name =
      let dir = text "/proc/driver/nvidia/gpus" in
      elim (read_dir dir) [ none ↦ none | some names ↦ model_among dir names ]

  abbrev gpu_name : Vendor → Bytes → Bytes
  gpu_name vendor device_id =
      let plain = text "GPU " ++ device_id in
      if is_nvidia vendor
      then elim nvidia_model_name [ some model ↦ model | none ↦ plain ]
      else plain

  -- The body of the loop of `detect_drm_gpus`, from the vendor id on.
  abbrev pub gpu_from : Bytes → Bytes → Bytes → Accelerator
  gpu_from device_dir name vendor_id =
      let vendor = vendor_from_pci_id vendor_id in
      record {
        kind = gpu;
        vendor = vendor;
        name = gpu_name vendor (or_empty (sysfs_read (join device_dir (text "device"))));
        device_path = text "/dev/dri/" ++ name;
        driver = uevent_value (join device_dir (text "uevent")) (text "DRIVER");
        sysfs_device = some (from_utf8_lossy device_dir);
      }

  abbrev push_gpu : Bytes → Bytes → Option Bytes → List Accelerator → List Accelerator
  push_gpu device_dir name none later = later
  push_gpu device_dir name (some vendor_id) later = gpu_from device_dir name vendor_id ∷ later

  unfoldable pub drm_gpus : List Bytes → List Accelerator
  drm_gpus [] = []
  drm_gpus (file_name ∷ names) =
      let later = drm_gpus names in
      let name = from_utf8_lossy file_name in
      let device_dir = join (join drm_dir file_name) (text "device") in
      if is_device (text "card") name
      then push_gpu device_dir name (sysfs_read (join device_dir (text "vendor"))) later
      else later

  unfoldable pub detect_drm_gpus : List Accelerator
  detect_drm_gpus = drm_gpus (entries_of (read_dir drm_dir))

  abbrev unbound_vendor : Option Bytes → Vendor
  unbound_vendor none = other (text "unknown")
  unbound_vendor (some v) = vendor_from_pci_id v

  -- The `match` on the driver.
  unfoldable pub npu_identity : Bytes → Option Bytes → Vendor × Bytes
  npu_identity device_dir none =
      (unbound_vendor (sysfs_read (join device_dir (text "vendor"))), text "accelerator (unbound)")
  npu_identity device_dir (some driver) =
      if bytes_eq driver (text "amdxdna")
      then (amd, text "XDNA NPU (Ryzen AI)")
      else if bytes_eq driver (text "intel_vpu")
      then (intel, text "NPU (VPU)")
      else if bytes_eq driver (text "qaic")
      then (qualcomm, text "Cloud AI accelerator")
      else if bytes_eq driver (text "habanalabs")
      then (habana, text "Gaudi accelerator")
      else (other driver, text "accelerator (" ++ (driver ++ text ")"))

  abbrev pub npu_from : Bytes → Bytes → Option Bytes → Accelerator
  npu_from device_dir name driver =
      let (vendor, pretty_name) = npu_identity device_dir driver in
      record {
        kind = npu;
        vendor = vendor;
        name = pretty_name;
        device_path = text "/dev/accel/" ++ name;
        driver = driver;
        sysfs_device = some (from_utf8_lossy device_dir);
      }

  unfoldable pub accel_npus : List Bytes → List Accelerator
  accel_npus [] = []
  accel_npus (file_name ∷ names) =
      let later = accel_npus names in
      let name = from_utf8_lossy file_name in
      let device_dir = join (join (text "/sys/class/accel") file_name) (text "device") in
      if is_device (text "accel") name
      then npu_from device_dir name (uevent_value (join device_dir (text "uevent")) (text "DRIVER"))
        ∷ later
      else later

  unfoldable pub detect_accel_npus : List Accelerator
  detect_accel_npus = accel_npus (entries_of (read_dir (text "/sys/class/accel")))

  -- The inner loop of `detect_misc_npus`.
  unfoldable pub misc_npus : Bytes → Vendor → Bytes → List Bytes → List Accelerator
  misc_npus prefix vendor name [] = []
  misc_npus prefix vendor name (file_name ∷ names) =
      let later = misc_npus prefix vendor name names in
      let node = from_utf8_lossy file_name in
      if starts_with prefix node
      then record {
        kind = npu;
        vendor = vendor;
        name = name;
        device_path = text "/dev" ++ (text "/" ++ node);
        driver = none;
        sysfs_device = none;
      }
        ∷ later
      else later

  unfoldable pub detect_misc_npus : List Accelerator
  detect_misc_npus =
      let nodes = entries_of (read_dir (text "/dev")) in
      misc_npus (text "rknpu") rockchip (text "RKNPU") nodes
      ++ misc_npus (text "hailo") hailo (text "Hailo NPU") nodes

  unfoldable pub detect_accelerators : List Accelerator
  detect_accelerators = detect_drm_gpus ++ (detect_accel_npus ++ detect_misc_npus)
