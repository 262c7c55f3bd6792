-- ===== src/Models/Enums.antt =====
-- The enums of internal/models/models.go: their names. An enum is an int32.
use ztelem.Prelude.{Bytes, ℤ, codes, if◌then◌else◌}
use ztelem.Models.Values.{is}

unfoldable pub alarm_status_string : ℤ → Bytes
alarm_status_string a =
    if is 1 a then codes "NORMAL" else if is 2 a then codes "ALARM" else codes "INVALID"

unfoldable pub admin_status_string : ℤ → Bytes
admin_status_string a =
    if is 1 a
    then codes "UP"
    else if is 2 a
    then codes "DOWN"
    else if is 3 a
    then codes "TESTING"
    else codes "INVALID"

unfoldable pub oper_status_string : ℤ → Bytes
oper_status_string o =
    if is 1 o
    then codes "UP"
    else if is 2 o
    then codes "DOWN"
    else if is 3 o
    then codes "TESTING"
    else if is 4 o
    then codes "UNKNOWN"
    else if is 5 o
    then codes "DORMANT"
    else if is 6 o
    then codes "NOT_PRESENT"
    else if is 7 o
    then codes "LOWER_LAYER_DOWN"
    else codes "INVALID"

unfoldable pub phy_status_string : ℤ → Bytes
phy_status_string p =
    if is 1 p then codes "UP" else if is 2 p then codes "DOWN" else codes "INVALID"

unfoldable pub ipv4_oper_status_string : ℤ → Bytes
ipv4_oper_status_string i =
    if is 1 i then codes "UP" else if is 2 i then codes "DOWN" else codes "INVALID"

unfoldable pub ipv6_oper_status_string : ℤ → Bytes
ipv6_oper_status_string i =
    if is 1 i then codes "UP" else if is 2 i then codes "DOWN" else codes "INVALID"
