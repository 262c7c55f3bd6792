-- ===== src/Database/Helpers.antt =====
-- internal/database/helpers.go: the fields of a record by number.
use ztelem.Prelude.{ℕ, ◌==◌, List, [], ◌∷◌, Option, none, some, if◌then◌else◌, Bytes}
use ztelem.Models.Values.{Value, nil_value, string_value}
pub mod Platform
pub mod Interface
pub mod Subinterface
pub mod Columns

-- A `switch` on a number with constant cases.
abbrev pub switch {ℓ} : {A : Type ℓ} → ℕ → List (ℕ × A) → A → A
switch i [] default = default
switch i ((n, a) ∷ cases) default = if i == n then a else switch i cases default

-- A field of an embedded struct. A nil pointer to the struct panics, which is `none`.
abbrev pub field {ℓ} : {S : Type ℓ} → Option S → (S → Value) → Option Value
field none read = none
field (some s) read = some (read s)

-- `if p != nil { return *p }; return nil`
abbrev pub string_or_nil : Option Bytes → Value
string_or_nil none = nil_value
string_or_nil (some s) = string_value s
