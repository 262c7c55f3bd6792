-- ===== src/Proto/Platform.antt =====
-- The messages of proto/openconfig_platform/openconfig_platform.proto.
use ztelem.Prelude.{Bool, Bytes, List, Option, ℕ, ℤ}
use ztelem.Models.Values.{Float32}

pub record CommonState : Type 0 where
  pub oper_status : Bytes
  pub uptime : ℕ  -- uint32
  pub used_power : ℕ  -- uint32
  pub allocated_power : ℕ  -- uint32
  pub current_voltage : Bytes
  pub current_current : Bytes
  pub total_capacity : Bytes
  pub used_capacity : Bytes
  pub type : Bytes
  pub redundancy_type : Bytes
  pub modules : Bytes
  pub total_input_power : Bytes

pub record Temperature : Type 0 where
  pub instant : Float32
  pub avg : Float32
  pub min : Float32
  pub max : Float32
  pub interval : ℕ  -- uint64
  pub min_time : ℕ  -- uint64
  pub max_time : ℕ  -- uint64
  pub alarm_status : Bool
  pub alarm_threshold : ℕ  -- uint32
  pub alarm_severity : Bytes
  pub minor_threshold : ℕ  -- uint32
  pub major_threshold : ℕ  -- uint32
  pub fatal_threshold : ℕ  -- uint32
  pub instant_string : Bytes
  pub status : Bytes
  pub description : Bytes

pub record MemoryInfo : Type 0 where
  pub available : ℕ  -- uint64
  pub utilized : ℕ  -- uint64
  pub free : ℕ  -- uint64
  pub usage : Float32
  pub alarm_status : ℤ  -- AlarmStatus

pub record CpuInfo : Type 0 where
  pub instant : ℕ  -- uint32
  pub avg : ℕ  -- uint32
  pub min : ℕ  -- uint32
  pub max : ℕ  -- uint32
  pub interval : ℕ  -- uint64
  pub min_time : ℕ  -- uint64
  pub max_time : ℕ  -- uint64
  pub alarm_status : ℤ  -- AlarmStatus

pub record LinecardInfo : Type 0 where
  pub power_admin_state : Bytes

pub record FanInfo : Type 0 where
  pub speed : ℕ  -- uint32
  pub state : Bytes
  pub phy_status : Bytes
  pub work_mode : Bytes
  pub current_power : Bytes
  pub current_voltage : Bytes
  pub current_current : Bytes
  pub speed_percent : Bytes

pub record PowerInfo : Type 0 where
  pub enable : Bool
  pub capacity : Float32
  pub input_current : Float32
  pub input_voltage : Float32
  pub output_current : Float32
  pub output_voltage : Float32
  pub output_power : Float32
  pub work_state : Bytes
  pub power_name : Bytes
  pub phy_state : Bytes
  pub power_state : Bytes
  pub com_state : Bytes
  pub temperature : Bytes
  pub available : Bytes
  pub capacity_string : Bytes
  pub input_power : Bytes
  pub input2_current : Float32
  pub input2_voltage : Float32
  pub output2_current : Float32
  pub output2_voltage : Float32

pub record StorageInfo : Type 0 where
  pub availability : ℕ  -- uint32

pub record OpticalPower : Type 0 where
  pub instant : Float32

pub record BiasCurrent : Type 0 where
  pub instant : Float32

pub record OpticalTemp : Type 0 where
  pub instant : Float32

pub record Voltage : Type 0 where
  pub vol33 : Float32
  pub vol5 : Float32

pub record LosAlarmInfo : Type 0 where
  pub event_id : ℕ  -- uint32
  pub event_interval : ℕ  -- uint32
  pub opt_in_power : List OpticalPower
  pub opt_out_power : List OpticalPower

pub record OpticalAlarm : Type 0 where
  pub los_status : ℤ  -- AlarmStatus
  pub los_info : Option LosAlarmInfo

pub record OnlineStatus : Type 0 where
  pub online_status : Bytes

pub record OpticalPowerThres : Type 0 where
  pub high_alarm : Float32
  pub pre_high_alarm : Float32
  pub low_alarm : Float32
  pub pre_low_alarm : Float32

pub record OpticalInfo : Type 0 where
  pub in_power : Option OpticalPower
  pub out_power : Option OpticalPower
  pub bias_current : Option BiasCurrent
  pub temperature : Option OpticalTemp
  pub voltage : Option Voltage
  pub alarm : Option OpticalAlarm
  pub online_status : Option OnlineStatus
  pub rx_threshold : Option OpticalPowerThres
  pub tx_threshold : Option OpticalPowerThres

pub record OptChanInfo : Type 0 where
  pub index : ℕ  -- uint32
  pub optchan_info : Option OpticalInfo

pub record ComponentInfo : Type 0 where
  pub name : Bytes
  pub common_state : Option CommonState
  pub temp_info : Option Temperature
  pub mem_info : Option MemoryInfo
  pub cpu_info : Option CpuInfo
  pub power_admin_state : Option LinecardInfo
  pub fan_info : Option FanInfo
  pub power_info : Option PowerInfo
  pub storage_info : Option StorageInfo
  pub optical_info : Option OpticalInfo
  pub opticalchan_info : List OptChanInfo
