-- ===== src/Agent/Hardware.antt =====
-- The data of crates/edge-agent/src/hardware.rs. What the module reads of its machine is the parameter
-- `Host`: directories, files, the output of `nvidia-smi`, and the parser and printer of `f32`.
pub mod Detect
pub mod Sensors
pub mod Offload
pub mod Named
pub mod Readings
use sovereign_edge_tee_agent.Base.{
  ℕ, Bytes, text, Bool, true, false, ◌++◌, ◌∷◌, Option, none, some, List, ◌&&◌, bytes_eq,
  if◌then◌else◌, ◌||◌,
}

pub record Host (F32 : Type 0) : Type 0 where
  -- The names of a directory's entries that can be read, or `none` where `read_dir` fails.
  pub read_dir : Bytes → Option (List Bytes)
  pub read_to_string : Bytes → Option Bytes
  -- The standard output of `nvidia-smi` with the query of temperature, power and utilization.
  pub nvidia_smi : Option Bytes
  pub parse_f32 : Bytes → Option F32
  -- `/ 1000.0`, `/ 1_000_000.0`
  pub div_f32 : F32 → ℕ → F32
  -- `{:.n}`
  pub show_f32 : ℕ → F32 → Bytes

pub data AcceleratorKind : Type 0 where
  gpu npu : AcceleratorKind

pub data Vendor : Type 0 where
  nvidia amd intel qualcomm rockchip hailo habana : Vendor
  other : Bytes → Vendor

-- `Display` of a vendor.
unfoldable pub vendor_text : Vendor → Bytes
vendor_text nvidia = text "NVIDIA"
vendor_text amd = text "AMD"
vendor_text intel = text "Intel"
vendor_text qualcomm = text "Qualcomm"
vendor_text rockchip = text "Rockchip"
vendor_text hailo = text "Hailo"
vendor_text habana = text "Habana"
vendor_text (other s) = s

pub record Accelerator : Type 0 where
  pub kind : AcceleratorKind
  pub vendor : Vendor
  pub name : Bytes
  pub device_path : Bytes
  pub driver : Option Bytes
  pub sysfs_device : Option Bytes

-- `kind == Gpu`, `vendor == Nvidia`, and the `matches!`
abbrev pub is_gpu : AcceleratorKind → Bool
is_gpu gpu = true
is_gpu npu = false

abbrev pub is_nvidia : Vendor → Bool
is_nvidia nvidia = true
is_nvidia _ = false

abbrev pub offload_vendor : Vendor → Bool
offload_vendor nvidia = true
offload_vendor amd = true
offload_vendor intel = true
offload_vendor _ = false

unfoldable pub supports_llama_offload : Accelerator → Bool
supports_llama_offload a = is_gpu a.kind && offload_vendor a.vendor

abbrev kind_text : AcceleratorKind → Bytes
kind_text gpu = text "GPU"
kind_text npu = text "NPU"

abbrev driver_text : Option Bytes → Bytes
driver_text none = text ""
driver_text (some drv) = text " (driver: " ++ (drv ++ text ")")

-- `Display` of an accelerator.
unfoldable pub accelerator_text : Accelerator → Bytes
accelerator_text a =
    text "["
    ++ (kind_text a.kind
        ++ (text "] " ++ (vendor_text a.vendor ++ (text " " ++ (a.name ++ driver_text a.driver)))))

-- `vendor_from_pci_id`
unfoldable pub vendor_from_pci_id : Bytes → Vendor
vendor_from_pci_id vendor_id =
    if bytes_eq vendor_id (text "0x10de")
    then nvidia
    else if bytes_eq vendor_id (text "0x1002") || bytes_eq vendor_id (text "0x1022")
    then amd
    else if bytes_eq vendor_id (text "0x8086")
    then intel
    else if bytes_eq vendor_id (text "0x17cb")
    then qualcomm
    else other vendor_id

-- `Path::join` of a relative name; 47 is the slash.
abbrev pub join : Bytes → Bytes → Bytes
join path name = path ++ (47 ∷ name)
