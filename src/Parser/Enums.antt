-- ===== src/Parser/Enums.antt =====
-- The names of enums in internal/parser/telemetry_parser.go and in internal/parser/helpers.go.
use ztelem.Prelude.{Bytes, ◌++◌, ℤ, codes, format_int, if◌then◌else◌}
use ztelem.Models.Values.{is}

unfoldable pub convert_alarm_status : ℤ → Bytes
convert_alarm_status value =
    if is 0 value
    then codes "INVALID"
    else if is 1 value
    then codes "NORMAL"
    else if is 2 value
    then codes "ALARM"
    else codes "UNKNOWN_" ++ format_int value

unfoldable pub convert_admin_status : ℤ → Bytes
convert_admin_status value =
    if is 0 value
    then codes "ADMIN_STATUS_INVALID"
    else if is 1 value
    then codes "ADMIN_STATUS_UP"
    else if is 2 value
    then codes "ADMIN_STATUS_DOWN"
    else if is 3 value
    then codes "ADMIN_STATUS_TESTING"
    else codes "ADMIN_STATUS_UNKNOWN_" ++ format_int value

unfoldable pub convert_oper_status : ℤ → Bytes
convert_oper_status value =
    if is 0 value
    then codes "OPER_STATUS_INVALID"
    else if is 1 value
    then codes "OPER_STATUS_UP"
    else if is 2 value
    then codes "OPER_STATUS_DOWN"
    else if is 3 value
    then codes "OPER_STATUS_TESTING"
    else if is 4 value
    then codes "OPER_STATUS_UNKNOWN"
    else if is 5 value
    then codes "OPER_STATUS_DORMANT"
    else if is 6 value
    then codes "OPER_STATUS_NOT_PRESENT"
    else if is 7 value
    then codes "OPER_STATUS_LOWER_LAYER_DOWN"
    else codes "OPER_STATUS_UNKNOWN_" ++ format_int value

unfoldable pub convert_ipv4_oper_status : ℤ → Bytes
convert_ipv4_oper_status value =
    if is 0 value
    then codes "IPV4OPERSTATUS_STATUS_INVALID"
    else if is 1 value
    then codes "IPV4OPERSTATUS_STATUS_UP"
    else if is 2 value
    then codes "IPV4OPERSTATUS_STATUS_DOWN"
    else codes "IPV4OPERSTATUS_STATUS_UNKNOWN_" ++ format_int value

unfoldable pub convert_ipv6_oper_status : ℤ → Bytes
convert_ipv6_oper_status value =
    if is 0 value
    then codes "IPV6OPERSTATUS_STATUS_INVALID"
    else if is 1 value
    then codes "IPV6OPERSTATUS_STATUS_UP"
    else if is 2 value
    then codes "IPV6OPERSTATUS_STATUS_DOWN"
    else codes "IPV6OPERSTATUS_STATUS_UNKNOWN_" ++ format_int value

unfoldable pub convert_phy_status : ℤ → Bytes
convert_phy_status value =
    if is 0 value
    then codes "PHY_STATUS_INVALID"
    else if is 1 value
    then codes "PHY_STATUS_UP"
    else if is 2 value
    then codes "PHY_STATUS_DOWN"
    else codes "PHY_STATUS_UNKNOWN_" ++ format_int value

unfoldable pub alarm_status_to_string : ℤ → Bytes
alarm_status_to_string status =
    if is 0 status
    then codes "INVALID"
    else if is 1 status
    then codes "NORMAL"
    else if is 2 status
    then codes "ALARM"
    else codes "UNKNOWN"

unfoldable pub admin_status_to_string : ℤ → Bytes
admin_status_to_string status =
    if is 0 status
    then codes "ADMIN_STATUS_INVALID"
    else if is 1 status
    then codes "ADMIN_STATUS_UP"
    else if is 2 status
    then codes "ADMIN_STATUS_DOWN"
    else if is 3 status
    then codes "ADMIN_STATUS_TESTING"
    else codes "UNKNOWN"

unfoldable pub oper_status_to_string : ℤ → Bytes
oper_status_to_string status =
    if is 0 status
    then codes "OPER_STATUS_INVALID"
    else if is 1 status
    then codes "OPER_STATUS_UP"
    else if is 2 status
    then codes "OPER_STATUS_DOWN"
    else if is 3 status
    then codes "OPER_STATUS_TESTING"
    else if is 4 status
    then codes "OPER_STATUS_UNKNOWN"
    else if is 5 status
    then codes "OPER_STATUS_DORMANT"
    else if is 6 status
    then codes "OPER_STATUS_NOT_PRESENT"
    else if is 7 status
    then codes "OPER_STATUS_LOWER_LAYER_DOWN"
    else codes "UNKNOWN"

unfoldable pub phy_status_to_string : ℤ → Bytes
phy_status_to_string status =
    if is 0 status
    then codes "PHY_STATUS_INVALID"
    else if is 1 status
    then codes "PHY_STATUS_UP"
    else if is 2 status
    then codes "PHY_STATUS_DOWN"
    else codes "UNKNOWN"

unfoldable pub ipv4_oper_status_to_string : ℤ → Bytes
ipv4_oper_status_to_string status =
    if is 0 status
    then codes "IPV4OPERSTATUS_STATUS_INVALID"
    else if is 1 status
    then codes "IPV4OPERSTATUS_STATUS_UP"
    else if is 2 status
    then codes "IPV4OPERSTATUS_STATUS_DOWN"
    else codes "UNKNOWN"

unfoldable pub ipv6_oper_status_to_string : ℤ → Bytes
ipv6_oper_status_to_string status =
    if is 0 status
    then codes "IPV6OPERSTATUS_STATUS_INVALID"
    else if is 1 status
    then codes "IPV6OPERSTATUS_STATUS_UP"
    else if is 2 status
    then codes "IPV6OPERSTATUS_STATUS_DOWN"
    else codes "UNKNOWN"
