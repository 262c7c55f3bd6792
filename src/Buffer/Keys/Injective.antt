-- ===== src/Buffer/Keys/Injective.antt =====
-- When two metrics have the same aggregation key.
use ztelem.Prelude.{
  ℕ, Bytes, ◌∷◌, ◌++◌, ◌≡◌, ◌≢◌, ◌↔◌, ap, arith, ℤ, pos, pos_part, Lacks, format_int,
  format_int-Lacks, format_int_injective, cut_first, cut_last, append_assoc, length, length-append,
}
use ztelem.Models.{
  PlatformMetric, InterfaceMetric, SubinterfaceMetric, AlarmReportMetric, NotificationReportMetric,
  unix_second,
}
use ztelem.Buffer.Keys.{platform_key, interface_key, subinterface_key, alarm_key, notification_key}

int-Lacks_underscore : (v : ℤ) → Lacks b'_' (format_int v)
int-Lacks_underscore v = format_int-Lacks b'_' v (λ d. omega (arith, d.1)) (λ e. omega (arith, e))

int-Lacks_colon : (v : ℤ) → Lacks b':' (format_int v)
int-Lacks_colon v = format_int-Lacks b':' v (λ d. omega (arith, d.1)) (λ e. omega (arith, e))

-- A key that begins with a second and an underscore shows that second.
pub second_prefix :
    (v w : ℤ) (a b : Bytes)
    → format_int v ++ b'_' ∷ a ≡ format_int w ++ b'_' ∷ b
    → (v ≡ w) × (a ≡ b)
second_prefix v w a b e =
    let r = cut_first b'_' _ _ a b (int-Lacks_underscore v) (int-Lacks_underscore w) e in
    (format_int_injective v w r.0, r.1)

-- Two platform metrics whose system IDs hold no underscore have the same key only if they are of the
-- same second, system and component.
pub platform_key_injective :
    (m n : PlatformMetric)
    → Lacks b'_' m.system_id
    → Lacks b'_' n.system_id
    → platform_key m ≡ platform_key n
    → (unix_second m.timestamp ≡ unix_second n.timestamp)
      × (m.system_id ≡ n.system_id)
      × (m.component_name ≡ n.component_name)
unfolding platform_key
platform_key_injective m n hm hn e =
    let r = second_prefix _ _ _ _ e in let q = cut_first b'_' _ _ _ _ hm hn r.1 in (r.0, q.0, q.1)

-- Two interface metrics whose system IDs hold no underscore have the same key only if they are of the
-- same second, system and interface.
pub interface_key_injective :
    (m n : InterfaceMetric)
    → Lacks b'_' m.system_id
    → Lacks b'_' n.system_id
    → interface_key m ≡ interface_key n
    → (unix_second m.timestamp ≡ unix_second n.timestamp)
      × (m.system_id ≡ n.system_id)
      × (m.interface_name ≡ n.interface_name)
unfolding interface_key
interface_key_injective m n hm hn e =
    let r = second_prefix _ _ _ _ e in let q = cut_first b'_' _ _ _ _ hm hn r.1 in (r.0, q.0, q.1)

-- Two subinterface metrics whose system IDs and interface names hold no underscore have the same key
-- only if they are of the same second, system, interface and subinterface.
subinterface_key_injective :
    (m n : SubinterfaceMetric)
    → Lacks b'_' m.system_id
    → Lacks b'_' n.system_id
    → Lacks b'_' m.interface_name
    → Lacks b'_' n.interface_name
    → subinterface_key m ≡ subinterface_key n
    → (unix_second m.timestamp ≡ unix_second n.timestamp)
      × (m.system_id ≡ n.system_id)
      × (m.interface_name ≡ n.interface_name)
      × (m.subinterface_name ≡ n.subinterface_name)
unfolding subinterface_key
subinterface_key_injective m n hm hn im jn e =
    let r = second_prefix _ _ _ _ e in
    let q = cut_first b'_' _ _ _ _ hm hn r.1 in
    let t = cut_first b'_' _ _ _ _ im jn q.1 in (r.0, q.0, t.0, t.1)

-- A text, a number and a number joined by colons show all three, whatever the text holds.
colons_injective :
    (s t : Bytes) (f g a b : ℕ)
    → s ++ b':' ∷ (format_int (pos f) ++ b':' ∷ format_int (pos a))
      ≡ t ++ b':' ∷ (format_int (pos g) ++ b':' ∷ format_int (pos b))
    → (s ≡ t) × (f ≡ g) × (a ≡ b)
colons_injective s t f g a b e =
    let regroup = λ (u : Bytes) (x y : ℕ).
      append_assoc u (b':' ∷ format_int (pos x)) (b':' ∷ format_int (pos y)) in
    let q =
      cut_last b':' _ _ _ _ (int-Lacks_colon (pos a)) (int-Lacks_colon (pos b))
        (cc (e, regroup s f a, regroup t g b)) in
    let r = cut_last b':' _ _ _ _ (int-Lacks_colon (pos f)) (int-Lacks_colon (pos g)) q.0 in
    let i : pos f ≡ pos g = format_int_injective _ _ r.1 in
    let j : pos a ≡ pos b = format_int_injective _ _ q.1 in (r.0, ap pos_part i, ap pos_part j)

-- Two alarm reports have the same key exactly when they agree on system, flow and alarm timestamp,
-- whatever bytes the system IDs hold.
pub alarm_key_injective :
    (m n : AlarmReportMetric)
    → (alarm_key m ≡ alarm_key n) ↔ (
        (m.system_id ≡ n.system_id)
        × (m.flow_id ≡ n.flow_id)
        × (m.alarm_timestamp ≡ n.alarm_timestamp))
unfolding alarm_key
alarm_key_injective m n = (λ e. colons_injective _ _ _ _ _ _ e, λ h. cc (h.0, h.1, h.2))

-- Two notification reports have the same key exactly when they agree on system, flow and timestamp,
-- whatever bytes the system IDs hold.
pub notification_key_injective :
    (m n : NotificationReportMetric)
    → (notification_key m ≡ notification_key n) ↔ (
        (m.system_id ≡ n.system_id)
        × (m.flow_id ≡ n.flow_id)
        × (m.notification_timestamp ≡ n.notification_timestamp))
unfolding notification_key
notification_key_injective m n = (λ e. colons_injective _ _ _ _ _ _ e, λ h. cc (h.0, h.1, h.2))

longer : (a b : Bytes) → a ++ b'_' ∷ b ≢ a
longer a b e = omega (arith, ap length e, length-append a (b'_' ∷ b))

longer' : (b c : Bytes) → c ≢ b ++ b'_' ∷ c
longer' b c e = omega (arith, ap length e, length-append b (b'_' ∷ c))

-- An underscore that moves from the system ID to the component name keeps the key: two metrics of
-- one second, with system a_b and component c, and with system a and component b_c, have the same
-- key although neither their systems nor their components are equal.
pub platform_key_collides :
    (a b c : Bytes) (m n : PlatformMetric)
    → unix_second m.timestamp ≡ unix_second n.timestamp
    → m.system_id ≡ a ++ b'_' ∷ b
    → m.component_name ≡ c
    → n.system_id ≡ a
    → n.component_name ≡ b ++ b'_' ∷ c
    → (platform_key m ≡ platform_key n)
      × (m.system_id ≢ n.system_id)
      × (m.component_name ≢ n.component_name)
unfolding platform_key
platform_key_collides a b c m n t sm cm sn cn =
    (cc (append_assoc a (b'_' ∷ b) (b'_' ∷ c)), λ e. longer a b (cc), λ e. longer' b c (cc))
