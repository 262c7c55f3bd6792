-- ===== src/Parser/Stored.antt =====
-- What the conversions of internal/parser and of internal/database make together of a protocol field.
use ztelem.Prelude.{
  ◌<◌, ◌*◌, List, Option, none, some, map, concat, get_elem?, ℕ, Bool, true, false, Bytes, [], ◌∷◌,
  ◌≡◌, ◌↔◌, refl, ap, ◌∙◌, arith, pos, inl, inr, Bool-cases, if◌then◌else◌,
}
use ztelem.Models.{
  OpticalData, Value, Float64, nil_value, time_value, float64_value, float64_is_zero,
}
use ztelem.Database.Cells.{safe_string, safe_uint32, safe_uint64, safe_float64, safe_time}
use ztelem.Parser.Helpers.{
  string_ptr, uint32_ptr, uint64_ptr, float64_ptr, optical_power_ptr, no_light, nanos_to_timestamp,
  time_ptr, bytes_to_mb,
}
use ztelem.Models.Floats.{float64_of_float32}
use ztelem.Proto.Telemetry.{Telemetry}
use ztelem.Proto.Platform.{
  ComponentInfo, FanInfo, MemoryInfo, Temperature, OpticalInfo, OpticalPower, StorageInfo,
  OpticalPowerThres, OpticalAlarm, LosAlarmInfo, Voltage,
}
use ztelem.Parser.Platform.Components.{
  components_fan, components_mem, components_temp, components_optical, components_power,
  components_alarm, components_voltage, components_thresholds, components_los_info,
}
use ztelem.Parser.Platform.Handlers.{emit_components_data, component_metric, components_storage}
use ztelem.Database.Platform.{platform_row}

-- A time of `n` nanoseconds since the Unix epoch is stored as exactly that time, and never as NULL:
-- also the 0 of a field that the device has not set.
pub stored_time : (n : ℕ) → safe_time (time_ptr (nanos_to_timestamp n)) ≡ time_value (pos n)
unfolding safe_time time_ptr nanos_to_timestamp
stored_time n = ap (λ k. time_value (pos k)) (omega arith)

stored_text : (s : Bytes) → (safe_string (string_ptr s) ≡ nil_value) ↔ (s ≡ [])
unfolding safe_string string_ptr
stored_text [] = (λ e. refl, λ e. refl)
stored_text (b ∷ s) = ground arith

stored_uint32 : (u : ℕ) → (safe_uint32 (uint32_ptr u) ≡ nil_value) ↔ (u ≡ 0)
unfolding safe_uint32 uint32_ptr
stored_uint32 u = ground arith

stored_memory : (u : ℕ) → (safe_uint64 (uint64_ptr (bytes_to_mb u)) ≡ nil_value) ↔ (u < 1024 * 1024)
unfolding safe_uint64 uint64_ptr bytes_to_mb
stored_memory u = ground arith

stored_reading :
    (v : Float64) → (safe_float64 (float64_ptr v) ≡ nil_value) ↔ (float64_is_zero v ≡ true)
unfolding safe_float64 float64_ptr
stored_reading v = ground arith

stored_power :
    (p : Float64) (is_valid : Bool)
    → safe_float64 (optical_power_ptr p is_valid)
      ≡ float64_value (if is_valid then (if float64_is_zero p then no_light else p) else no_light)
unfolding safe_float64 optical_power_ptr
stored_power p false = refl
stored_power p true = elim (Bool-cases (float64_is_zero p)) [
  | inl e ↦ rw e refl
  | inr e ↦ rw e refl
]

-- Wrapped in the list of a row's cells, an absent cell is the same.
cell_absent : (v : Value) {P : Type 0} → (v ≡ nil_value) ↔ P → (some v ≡ some nil_value) ↔ P
cell_absent v h = (λ e. h.0 (cc e), λ p. ap some (h.1 p))

-- The rows of the metrics of a packet for all components.
abbrev pub component_row :
    Telemetry
    → ComponentInfo
    → FanInfo
    → MemoryInfo
    → Temperature
    → OpticalInfo
    → Option StorageInfo
    → List Value
component_row msg info fan mem temp optical storage = concat (
    map platform_row (
      emit_components_data msg (record info {
        fan_info = some fan;
        mem_info = some mem;
        temp_info = some temp;
        optical_info = some optical;
        storage_info = storage;
      })))

abbrev pub light : Option OpticalPower → Float64
light none = no_light
light (some p) =
    if float64_is_zero (float64_of_float32 p.instant)
    then no_light
    else float64_of_float32 p.instant

stored_light :
    (o : Option OpticalPower) → safe_float64 (components_power o) ≡ float64_value (light o)
unfolding components_power
stored_light none = stored_power 0 false
stored_light (some p) = stored_power (float64_of_float32 p.instant) true

-- What is read after the received power leaves it.
thresholds_keep :
    (t : Option OpticalPowerThres) (m : OpticalData)
    → (components_thresholds t m).optical_in_power ≡ m.optical_in_power
unfolding components_thresholds
thresholds_keep none m = refl
thresholds_keep (some t) m = refl

los_keep :
    (l : Option LosAlarmInfo) (m : OpticalData)
    → (components_los_info l m).optical_in_power ≡ m.optical_in_power
unfolding components_los_info
los_keep none m = refl
los_keep (some l) m = refl

alarm_keep :
    (a : Option OpticalAlarm) (m : OpticalData)
    → (components_alarm a m).optical_in_power ≡ m.optical_in_power
unfolding components_alarm
alarm_keep none m = refl
alarm_keep (some a) m = los_keep a.los_info _

voltage_keep :
    (v : Option Voltage) (m : OpticalData)
    → (components_voltage v m).optical_in_power ≡ m.optical_in_power
unfolding components_voltage
voltage_keep none m = refl
voltage_keep (some v) m = refl

received_power :
    (x : OpticalInfo) → (components_optical x).optical_in_power ≡ components_power x.in_power
unfolding components_optical
received_power x =
    thresholds_keep x.rx_threshold _ ∙ alarm_keep x.alarm _ ∙ voltage_keep x.voltage _

stored_received :
    (x : OpticalInfo)
    → some (safe_float64 (components_optical x).optical_in_power)
      ≡ some (float64_value (light x.in_power))
stored_received x =
    ap (λ p. some (safe_float64 p)) (received_power x) ∙ ap some (stored_light x.in_power)

-- In the row of a component, from a packet of all its data to the cells of the database: the state of a
-- fan is NULL exactly if its text is empty, its speed exactly if it is 0, the available memory exactly
-- if it is below a MiB, and the temperature exactly if it is zero, so that a fan that stands still and a
-- temperature of 0 degrees are stored like fields that the device has not set. The received optical
-- power is never NULL: it is -60 where it is missing or zero.
pub stored_absent :
    (msg : Telemetry) (info : ComponentInfo) (fan : FanInfo) (mem : MemoryInfo) (temp : Temperature)
    (optical : OpticalInfo) (storage : Option StorageInfo)
    → let row = component_row msg info fan mem temp optical storage in
      ((get_elem? row 16 ≡ some nil_value) ↔ (fan.state ≡ []))
      × ((get_elem? row 15 ≡ some nil_value) ↔ (fan.speed ≡ 0))
      × ((get_elem? row 23 ≡ some nil_value) ↔ (mem.available < 1024 * 1024))
      × ((get_elem? row 29 ≡ some nil_value)
          ↔ (float64_is_zero (float64_of_float32 temp.instant) ≡ true))
      × (get_elem? row 74 ≡ some (float64_value (light optical.in_power)))
unfolding emit_components_data component_metric platform_row components_fan components_mem
    components_temp components_storage
stored_absent msg info fan mem temp optical none = (
  cell_absent _ (stored_text fan.state),
  cell_absent _ (stored_uint32 fan.speed),
  cell_absent _ (stored_memory mem.available),
  cell_absent _ (stored_reading (float64_of_float32 temp.instant)),
  stored_received optical,
)
stored_absent msg info fan mem temp optical (some s) = (
  cell_absent _ (stored_text fan.state),
  cell_absent _ (stored_uint32 fan.speed),
  cell_absent _ (stored_memory mem.available),
  cell_absent _ (stored_reading (float64_of_float32 temp.instant)),
  stored_received optical,
)
