-- ===== src/Value.antt =====
-- Values of the dynamic language, as far as the adapters inspect them: what a configuration dict or
-- a message's headers hold, and the built-ins `bool`, `int`, `str.strip` and `str.lower`.
mod Numeral
pub mod Text
unfoldable pub use Numeral.{parse_int}
use Prim.Native.Nat.{zero, suc}
use rabbitmq_pika_adapter.Prelude.{
  Bool, true, false, not, Option, none, some, String, codes, str_eq, if◌then◌else◌,
}
use rabbitmq_pika_adapter.Prelude.Int.{ℤ, pos, negsuc}

-- A value of any other class (a float, an object), by what the built-ins give on it.
pub record Opaque : Type 0 where
  pub truthy : Bool
  pub as_int : Option ℤ

-- Dicts have texts as keys. The first entry of a key counts.
mutual
  pub data Value : Type 0 where
    null : Value
    boolean : Bool → Value
    integer : ℤ → Value
    string : String → Value
    opaque : Opaque → Value
    array : Items → Value
    dict : Fields → Value

  pub data Items : Type 0 where
    nil : Items
    cons : Value → Items → Items

  pub data Fields : Type 0 where
    end : Fields
    field : String → Value → Fields → Fields

-- `d.get(k)`; `none` where the key is missing
unfoldable pub get : String → Fields → Option Value
get k end = none
get k (field j v d) = if str_eq j k then some v else get k d

-- `d.get(k, default)`
unfoldable pub get_or : String → Value → Fields → Value
unfolding get
get_or k default d = elim (get k d) [ none ↦ default | some v ↦ v ]

-- `bool(v)`
unfoldable pub truthy : Value → Bool
truthy null = false
truthy (boolean b) = b
truthy (integer (pos n)) = elim n [ zero ↦ false | suc _ ↦ true ]
truthy (integer (negsuc _)) = true
truthy (string s) = not (str_eq s "")
truthy (opaque o) = o.truthy
truthy (array nil) = false
truthy (array (cons _ _)) = true
truthy (dict end) = false
truthy (dict (field _ _ _)) = true

-- `int(v)`; `none` where it raises
unfoldable pub int : Value → Option ℤ
unfolding parse_int
int (boolean true) = some (pos 1)
int (boolean false) = some (pos 0)
int (integer n) = some n
int (string s) = parse_int (codes s)
int (opaque o) = o.as_int
int _ = none

-- `str(v)`: a text is itself, and `render` is what the built-in gives on the other values
unfoldable pub str : (Value → String) → Value → String
str render (string s) = s
str render v = render v
