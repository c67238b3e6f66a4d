-- ===== src/Agent/Hardware/Sensors.antt =====
-- The sensors of crates/edge-agent/src/hardware.rs.
use sovereign_edge_tee_agent.Base.{
  Bytes, text, Bool, true, false, ◌||◌, ◌++◌, List, [], ◌∷◌, Option, none, some, if◌then◌else◌,
}
use sovereign_edge_tee_agent.Base.Utf8.{trim, from_utf8_lossy}
use sovereign_edge_tee_agent.Base.Lines.{lines, split}
use sovereign_edge_tee_agent.Base.Options.{or_else}
use sovereign_edge_tee_agent.Agent.Hardware.{Host, is_nvidia, Accelerator, join}
use sovereign_edge_tee_agent.Agent.Hardware.Detect.{sysfs_read, map_option}

pub record SensorReading (F32 : Type 0) : Type 0 where
  pub temp_c : Option F32
  pub power_w : Option F32
  pub utilization_pct : Option F32

abbrev pub no_reading : {F32 : Type 0} → SensorReading F32
no_reading = record { temp_c = none; power_w = none; utilization_pct = none }

abbrev pub is_some : {A : Type 0} → Option A → Bool
is_some none = false
is_some (some a) = true

module _ {F32 : Type 0} (host : Host F32) where
  open host use {read_dir, parse_f32, div_f32, show_f32}

  -- `and_then(|v| v.parse::<f32>().ok())`
  abbrev pub parsed : Option Bytes → Option F32
  parsed none = none
  parsed (some v) = parse_f32 v

  unfoldable pub hwmon_temp : Bytes → Option F32
  hwmon_temp hwmon =
      map_option (λ milli_c. div_f32 milli_c 1000)
        (parsed (sysfs_read host (join hwmon (text "temp1_input"))))

  -- The first of the two files that can be read is parsed.
  unfoldable pub hwmon_power : Bytes → Option F32
  hwmon_power hwmon =
      map_option (λ micro_w. div_f32 micro_w 1000000)
        (parsed (
          or_else (sysfs_read host (join hwmon (text "power1_average")))
            (sysfs_read host (join hwmon (text "power1_input")))))

  -- The loop over the entries; a value that is there is kept.
  unfoldable pub hwmon_loop : Bytes → List Bytes → SensorReading F32 → SensorReading F32
  hwmon_loop dir [] reading = reading
  hwmon_loop dir (name ∷ names) reading =
      let hwmon = join dir name in
      let temp_c = if is_some reading.temp_c then reading.temp_c else hwmon_temp hwmon in
      let power_w = if is_some reading.power_w then reading.power_w else hwmon_power hwmon in
      hwmon_loop dir names (record reading { temp_c = temp_c; power_w = power_w })

  unfoldable pub read_hwmon_sensors : Bytes → SensorReading F32
  read_hwmon_sensors sysfs_device =
      let dir = join sysfs_device (text "hwmon") in
      elim (read_dir dir) as (λ _. SensorReading F32) [
        | none ↦ no_reading
        | some names ↦ record (hwmon_loop dir names no_reading) {
          utilization_pct = parsed (sysfs_read host (join sysfs_device (text "gpu_busy_percent")));
        }
      ]

  -- `fields.next().flatten()` of the lazy parse, and the rest.
  abbrev next_field : List Bytes → Option F32 × List Bytes
  next_field [] = (none, [])
  next_field (f ∷ fs) = (parse_f32 (trim f), fs)

  abbrev reading_of : List Bytes → SensorReading F32
  reading_of [] = no_reading
  reading_of (line ∷ rest) =
      let (temp_c, fields) = next_field (split 44 line) in
      let (power_w, fields') = next_field fields in
      let (utilization_pct, fields'') = next_field fields' in
      record { temp_c = temp_c; power_w = power_w; utilization_pct = utilization_pct }

  abbrev smi_reading : Option Bytes → SensorReading F32
  smi_reading none = no_reading
  smi_reading (some stdout) = reading_of (lines (from_utf8_lossy stdout))

  unfoldable pub read_nvidia_smi_sensors : SensorReading F32
  read_nvidia_smi_sensors = smi_reading host.nvidia_smi

  abbrev fallback : Accelerator → SensorReading F32
  fallback a = if is_nvidia a.vendor then read_nvidia_smi_sensors else no_reading

  abbrev sensors_of : Accelerator → Option Bytes → SensorReading F32
  sensors_of a none = fallback a
  sensors_of a (some sysfs) =
      let reading = read_hwmon_sensors sysfs in
      if is_some reading.temp_c || is_some reading.power_w then reading else fallback a

  unfoldable pub read_sensors : Accelerator → SensorReading F32
  read_sensors a = sensors_of a a.sysfs_device

  -- `Display` of a reading; 194 176 is the degree sign.
  abbrev part : Option F32 → (F32 → Bytes) → List Bytes → List Bytes
  part none show rest = rest
  part (some x) show rest = show x ∷ rest

  -- `join(", ")`
  abbrev joined : List Bytes → Bytes
  joined [] = []
  joined (p ∷ []) = p
  joined (p ∷ q ∷ ps) = p ++ (text ", " ++ joined (q ∷ ps))

  abbrev shown : List Bytes → Bytes
  shown [] = text "no sensors"
  shown (p ∷ ps) = joined (p ∷ ps)

  unfoldable pub sensor_text : SensorReading F32 → Bytes
  sensor_text r = shown (
      part r.temp_c (λ t. show_f32 0 t ++ (194 ∷ 176 ∷ text "C"))
        (part r.power_w (λ p. show_f32 1 p ++ text "W")
          (part r.utilization_pct (λ u. show_f32 0 u ++ text "% util") [])))
