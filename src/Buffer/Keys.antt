-- ===== src/Buffer/Keys.antt =====
-- The aggregation keys of internal/buffer/buffer_manager.go and the pool of key buffers that they are
-- built in.
pub mod Injective
pub mod Pool
use ztelem.Prelude.{
  ℕ, zero, suc, Bool, Bytes, List, [], ◌∷◌, ◌++◌, ℤ, pos, Option, none, some, format_int,
}
use ztelem.Models.{
  PlatformMetric, InterfaceMetric, SubinterfaceMetric, AlarmReportMetric, NotificationReportMetric,
  unix_second,
}

pub record KeyBuffer : Type 0 where
  pub buf : Bytes

reset : KeyBuffer → KeyBuffer
reset kb = record { buf = [] }

write_int : ℤ → KeyBuffer → KeyBuffer
write_int v kb = record { buf = kb.buf ++ format_int v }

write_byte : ℕ → KeyBuffer → KeyBuffer
write_byte b kb = record { buf = kb.buf ++ b ∷ [] }

write_string : Bytes → KeyBuffer → KeyBuffer
write_string s kb = record { buf = kb.buf ++ s }

-- A `sync.Pool`: `Get` hands out any pooled buffer, or a new one. The argument `pick` is its choice.
abbrev pub Pool : Type 0
Pool = List KeyBuffer

remove_at : ℕ → Pool → Pool
remove_at pick [] = []
remove_at zero (b ∷ p) = p
remove_at (suc n) (b ∷ p) = b ∷ remove_at n p

get_buffer : ℕ → Pool → KeyBuffer
get_buffer pick [] = record { buf = [] }
get_buffer zero (b ∷ p) = b
get_buffer (suc n) (b ∷ p) = get_buffer n p

acquire_key_buf : ℕ → Pool → KeyBuffer × Pool
unfolding get_buffer remove_at
acquire_key_buf pick p = (get_buffer pick p, remove_at pick p)

release_key_buf : KeyBuffer → Pool → Pool
unfolding reset
release_key_buf kb p = reset kb ∷ p

-- The body between `acquireKeyBuf` and the deferred `releaseKeyBuf`.
with_key_buf : ℕ → Pool → (KeyBuffer → KeyBuffer) → Bytes × Pool
unfolding acquire_key_buf release_key_buf
with_key_buf pick p body =
    let (kb, rest) = acquire_key_buf pick p in
    let built = body kb in (built.buf, release_key_buf built rest)

pub generate_platform_key : ℕ → Pool → PlatformMetric → Bytes × Pool
unfolding with_key_buf write_int write_byte write_string
generate_platform_key pick p metric = with_key_buf pick p λ kb. write_string metric.component_name (
    write_byte b'_' (
      write_string metric.system_id
        (write_byte b'_' (write_int (unix_second metric.timestamp) kb))))

pub generate_interface_key : ℕ → Pool → InterfaceMetric → Bytes × Pool
unfolding with_key_buf write_int write_byte write_string
generate_interface_key pick p metric = with_key_buf pick p λ kb.
    write_string metric.interface_name (
      write_byte b'_' (
        write_string metric.system_id
          (write_byte b'_' (write_int (unix_second metric.timestamp) kb))))

pub generate_subinterface_key : ℕ → Pool → SubinterfaceMetric → Bytes × Pool
unfolding with_key_buf write_int write_byte write_string
generate_subinterface_key pick p metric = with_key_buf pick p λ kb.
    write_string metric.subinterface_name (
      write_byte b'_' (
        write_string metric.interface_name (
          write_byte b'_' (
            write_string metric.system_id
              (write_byte b'_' (write_int (unix_second metric.timestamp) kb))))))

-- `int64(metric.FlowID)` of a uint32 keeps its value.
pub generate_alarm_key : ℕ → Pool → AlarmReportMetric → Bytes × Pool
unfolding with_key_buf write_int write_byte write_string
generate_alarm_key pick p metric = with_key_buf pick p λ kb.
    write_int (pos metric.alarm_timestamp) (
      write_byte b':'
        (write_int (pos metric.flow_id) (write_byte b':' (write_string metric.system_id kb))))

pub generate_notification_key : ℕ → Pool → NotificationReportMetric → Bytes × Pool
unfolding with_key_buf write_int write_byte write_string
generate_notification_key pick p metric = with_key_buf pick p λ kb.
    write_int (pos metric.notification_timestamp) (
      write_byte b':'
        (write_int (pos metric.flow_id) (write_byte b':' (write_string metric.system_id kb))))

-- What the keys are meant to be: the text that a fresh buffer gets.
unfoldable pub platform_key : PlatformMetric → Bytes
platform_key m =
    format_int (unix_second m.timestamp) ++ b'_' ∷ (m.system_id ++ b'_' ∷ m.component_name)

unfoldable pub interface_key : InterfaceMetric → Bytes
interface_key m =
    format_int (unix_second m.timestamp) ++ b'_' ∷ (m.system_id ++ b'_' ∷ m.interface_name)

unfoldable pub subinterface_key : SubinterfaceMetric → Bytes
subinterface_key m =
    format_int (unix_second m.timestamp)
    ++ b'_' ∷ (m.system_id ++ b'_' ∷ (m.interface_name ++ b'_' ∷ m.subinterface_name))

unfoldable pub alarm_key : AlarmReportMetric → Bytes
alarm_key m =
    m.system_id ++ b':' ∷ (format_int (pos m.flow_id) ++ b':' ∷ format_int (pos m.alarm_timestamp))

unfoldable pub notification_key : NotificationReportMetric → Bytes
notification_key m =
    m.system_id
    ++ b':' ∷ (format_int (pos m.flow_id) ++ b':' ∷ format_int (pos m.notification_timestamp))
