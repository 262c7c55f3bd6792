-- ===== src/Buffer/Keys/Pool.antt =====
-- The keys that pooled buffers give, beside the text of each key.
use ztelem.Prelude.{ℕ, zero, suc, Bytes, [], ◌∷◌, ◌≡◌, refl, All, append_assoc}
use ztelem.Models.{
  PlatformMetric, InterfaceMetric, SubinterfaceMetric, AlarmReportMetric, NotificationReportMetric,
}
use ztelem.Buffer.Keys.{
  KeyBuffer, Pool, remove_at, get_buffer, with_key_buf, generate_platform_key,
  generate_interface_key, generate_subinterface_key, generate_alarm_key, generate_notification_key,
  platform_key, interface_key, subinterface_key, alarm_key, notification_key,
}

-- Every pooled buffer is empty.
abbrev pub IsClean : Pool → Type 0
IsClean = All (λ (kb : KeyBuffer). kb.buf ≡ [])

remove_at-IsClean : (pick : ℕ) (p : Pool) → IsClean p → IsClean (remove_at pick p)
unfolding remove_at
remove_at-IsClean pick [] h = h
remove_at-IsClean zero (b ∷ p) h = h.1
remove_at-IsClean (suc n) (b ∷ p) h = (h.0, remove_at-IsClean n p h.1)

get_buffer_empty : (pick : ℕ) (p : Pool) → IsClean p → get_buffer pick p ≡ record { buf = [] }
unfolding get_buffer
get_buffer_empty pick [] h = refl
get_buffer_empty zero (b ∷ p) h = λ i. record { buf = h.0 i }
get_buffer_empty (suc n) (b ∷ p) h = get_buffer_empty n p h.1

-- The key that `body` builds in an empty buffer, and a clean pool after it.
abbrev pub Builds : Bytes × Pool → Bytes → Type 0
Builds r key = (r.0 ≡ key) × IsClean r.1

module _ (pick : ℕ) (p : Pool) (clean : IsClean p) where
  with_key_buf-Builds :
      (body : KeyBuffer → KeyBuffer)
      → Builds (with_key_buf pick p body) (body (record { buf = [] })).buf
  unfolding with_key_buf
  with_key_buf-Builds body =
      rw (get_buffer_empty pick p clean) (refl, (refl, remove_at-IsClean pick p clean))

  platform-Builds : (m : PlatformMetric) → Builds (generate_platform_key pick p m) (platform_key m)
  unfolding generate_platform_key platform_key
  platform-Builds m =
      rw (get_buffer_empty pick p clean) (simp append_assoc, (refl, remove_at-IsClean pick p clean))

  interface-Builds :
      (m : InterfaceMetric) → Builds (generate_interface_key pick p m) (interface_key m)
  unfolding generate_interface_key interface_key
  interface-Builds m =
      rw (get_buffer_empty pick p clean) (simp append_assoc, (refl, remove_at-IsClean pick p clean))

  subinterface-Builds :
      (m : SubinterfaceMetric) → Builds (generate_subinterface_key pick p m) (subinterface_key m)
  unfolding generate_subinterface_key subinterface_key
  subinterface-Builds m =
      rw (get_buffer_empty pick p clean) (simp append_assoc, (refl, remove_at-IsClean pick p clean))

  alarm-Builds : (m : AlarmReportMetric) → Builds (generate_alarm_key pick p m) (alarm_key m)
  unfolding generate_alarm_key alarm_key
  alarm-Builds m =
      rw (get_buffer_empty pick p clean) (simp append_assoc, (refl, remove_at-IsClean pick p clean))

  notification-Builds :
      (m : NotificationReportMetric)
      → Builds (generate_notification_key pick p m) (notification_key m)
  unfolding generate_notification_key notification_key
  notification-Builds m =
      rw (get_buffer_empty pick p clean) (simp append_assoc, (refl, remove_at-IsClean pick p clean))

-- From a pool of empty buffers, whatever buffer the pool hands out, each of the five generators
-- returns exactly the key text of its metric, and leaves a pool of empty buffers.
pub pooled_keys :
    (pick : ℕ) (p : Pool)
    → IsClean p
    → ((m : PlatformMetric) → Builds (generate_platform_key pick p m) (platform_key m))
      × ((m : InterfaceMetric) → Builds (generate_interface_key pick p m) (interface_key m))
      × ((m : SubinterfaceMetric)
          → Builds (generate_subinterface_key pick p m) (subinterface_key m))
      × ((m : AlarmReportMetric) → Builds (generate_alarm_key pick p m) (alarm_key m))
      × ((m : NotificationReportMetric)
          → Builds (generate_notification_key pick p m) (notification_key m))
pooled_keys pick p clean = (
  platform-Builds pick p clean,
  interface-Builds pick p clean,
  subinterface-Builds pick p clean,
  alarm-Builds pick p clean,
  notification-Builds pick p clean,
)
