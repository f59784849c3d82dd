-- ===== src/Base/Json.antt =====
-- JSON values as Python's `json` reads and writes them: a dict keeps its entries in order. Numbers are
-- natural. A value that JSON has no form for, such as a datetime in a payload, is `other` with its `str`.
use Prim.Native.Nat.{ℕ}
use Prim.Native.String.{String}
use mathlib.Core.Bool.{Bool, true, false, not}
use mathlib.Core.Option.{Option, none, some}
use omnisync.Base.Tests.{str_eq, ◌==◌, if◌then◌else◌}

mutual
  pub data Json : Type 0 where
    null : Json
    bool : Bool → Json
    num : ℕ → Json
    str : String → Json
    arr : Items → Json
    obj : Fields → Json
    other : String → Json

  pub data Items : Type 0 where
    nil : Items
    cons : Json → Items → Items

  pub data Fields : Type 0 where
    end : Fields
    field : String → Json → Fields → Fields

-- `d.get(name)`: the entry, where there is one.
unfoldable pub get : String → Fields → Option Json
get name end = none
get name (field k v rest) = let found = get name rest in if str_eq k name then some v else found

-- `bool(x)`
unfoldable pub truthy : Json → Bool
truthy null = false
truthy (bool b) = b
truthy (num n) = not (n == 0)
truthy (str s) = not (str_eq s "")
truthy (arr nil) = false
truthy (arr (cons j js)) = true
truthy (obj end) = false
truthy (obj (field k v rest)) = true
truthy (other s) = true

-- `d.get(name)` as a value: None for a missing entry.
unfoldable pub get_or_null : String → Fields → Json
unfolding get
get_or_null name fields = elim (get name fields) [ none ↦ null | some v ↦ v ]

-- `x or y`
unfoldable pub or_value : Json → Json → Json
unfolding truthy
or_value x y = if truthy x then x else y

-- `json.loads(json.dumps(x, default=str))`: a value that JSON has no form for becomes its text.
unfoldable mutual
  pub coerced : Json → Json
  coerced null = null
  coerced (bool b) = bool b
  coerced (num n) = num n
  coerced (str s) = str s
  coerced (arr js) = arr (coerced_items js)
  coerced (obj fields) = obj (coerced_fields fields)
  coerced (other s) = str s

  pub coerced_items : Items → Items
  coerced_items nil = nil
  coerced_items (cons j js) = cons (coerced j) (coerced_items js)

  pub coerced_fields : Fields → Fields
  coerced_fields end = end
  coerced_fields (field name j rest) = field name (coerced j) (coerced_fields rest)
