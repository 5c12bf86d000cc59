-- ===== src/Base/Values.antt =====
-- JSON values: the payloads that the code stores, sends and receives.
use Prim.Native.Nat.{ℕ}
use Prim.Native.String.{String}
use mathlib.Core.Bool.{Bool}
use mathlib.Core.Option.{Option, none, some}
use text.Mathlib.Text.{◌==◌ as str_eq}
use scope_guard.Base.Tests.{if◌then◌else◌}

-- Negative numbers occur in no payload that the modelled code accepts, so numbers are ℕ; a number
-- that is not a non-negative integer is `other`.
mutual
  pub data Json : Type 0 where
    null : Json
    bool : Bool → Json
    num : ℕ → Json
    other : Json
    str : String → Json
    arr : Items → Json
    obj : Fields → Json

  pub data Items : Type 0 where
    nil : Items
    cons : Json → Items → Items

  pub data Fields : Type 0 where
    end : Fields
    field : String → Json → Fields → Fields

-- `fields.get(name)`
unfoldable pub get_field : String → Fields → Option Json
get_field name end = none
get_field name (field k v rest) = if str_eq k name then some v else get_field name rest
