-- ===== src/Agent/Hardware/Readings.antt =====
-- What the sensors give: the loop over hwmon entries is a search for each value.
use sovereign_edge_tee_agent.Base.{
  Bytes, text, ◌≡◌, ◌≢◌, ◌⊎◌, arith, List, [], ◌∷◌, Option, none, some, if◌then◌else◌,
}
use sovereign_edge_tee_agent.Base.Options.{or_else}
use sovereign_edge_tee_agent.Agent.Hardware.{Host, is_nvidia, Accelerator, join}
use sovereign_edge_tee_agent.Agent.Hardware.Detect.{sysfs_read}
use sovereign_edge_tee_agent.Agent.Hardware.Sensors.{
  SensorReading, no_reading, is_some, parsed, hwmon_temp, hwmon_power, hwmon_loop,
  read_hwmon_sensors, read_nvidia_smi_sensors, read_sensors,
}

-- The first value that a search gives.
pub first_of : {A B : Type 0} → (A → Option B) → List A → Option B
first_of f [] = none
first_of f (x ∷ xs) = or_else (f x) (first_of f xs)

module _ {F32 : Type 0} (host : Host F32) where
  open host use {read_dir}

  abbrev pub temp_among : Bytes → List Bytes → Option F32
  temp_among dir names = first_of (λ n. hwmon_temp host (join dir n)) names

  abbrev pub power_among : Bytes → List Bytes → Option F32
  power_among dir names = first_of (λ n. hwmon_power host (join dir n)) names

  hwmon_loop_lem :
      (dir : Bytes) (names : List Bytes) (r : SensorReading F32)
      → hwmon_loop host dir names r ≡ record r {
        temp_c = or_else r.temp_c (temp_among dir names);
        power_w = or_else r.power_w (power_among dir names);
      }
  unfolding hwmon_loop first_of
  hwmon_loop_lem dir [] r = ground arith
  hwmon_loop_lem dir (n ∷ names) r = ground (
    arith,
    hwmon_loop_lem dir names (record r {
      temp_c = if is_some r.temp_c then r.temp_c else hwmon_temp host (join dir n);
      power_w = if is_some r.power_w then r.power_w else hwmon_power host (join dir n);
    }),
  )

  -- The busy percentage of a device.
  abbrev pub busy : Bytes → Option F32
  busy sysfs = parsed host (sysfs_read host (join sysfs (text "gpu_busy_percent")))

  -- A device with a sysfs directory whose `hwmon` can be listed: its temperature and its power are those of the
  -- first entry that has one, each for itself. If there is one of the two, they are given with the busy
  -- percentage, and `nvidia-smi` is not asked. If there is neither, the reading is that of `nvidia-smi` for NVIDIA
  -- and empty for every other vendor, whatever the busy percentage.
  pub read_sensors_lem :
      (a : Accelerator) {sysfs : Bytes} {names : List Bytes}
      → a.sysfs_device ≡ some sysfs
      → read_dir (join sysfs (text "hwmon")) ≡ some names
      → let temp = temp_among (join sysfs (text "hwmon")) names in
        let power = power_among (join sysfs (text "hwmon")) names in
        ((((temp ≢ none) ⊎ (power ≢ none))
            × (read_sensors host a
                ≡ record { temp_c = temp; power_w = power; utilization_pct = busy sysfs }))
          ⊎ ((temp ≡ none)
              × (power ≡ none)
              × (read_sensors host a
                  ≡ (if is_nvidia a.vendor then read_nvidia_smi_sensors host else no_reading))))
  unfolding read_sensors read_hwmon_sensors
  read_sensors_lem a {sysfs} {names} e d =
      let dir = join sysfs (text "hwmon") in ground (arith, hwmon_loop_lem dir names no_reading)
