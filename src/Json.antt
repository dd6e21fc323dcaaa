-- ===== src/Json.antt =====
-- The values of JSON columns and of messages: what `JSON.parse` gives and the drivers store.
use tuixiu.Prelude.{ℕ, String, Bool, true, false, Option, none, some, ◌==◌, if◌then◌else◌}

-- A number as the program looks at it: whether it is finite, whether it is above zero, and then its
-- whole part.
pub data Number : Type 0 where
  not_finite : Number
  not_positive : Number
  positive : (whole : ℕ) → Number

mutual
  -- the members of an object, in their order
  pub data Fields : Type 0 where
    field : (key : String) → (value : Value) → (rest : Fields) → Fields
    end : Fields

  -- the elements of an array
  pub data Items : Type 0 where
    cons : (first : Value) → (rest : Items) → Items
    nil : Items

  pub data Value : Type 0 where
    obj : Fields → Value
    arr : Items → Value
    str : String → Value
    num : Number → Value
    bool : Bool → Value
    null : Value

-- `v[key]`, absent if undefined
unfoldable pub get : String → Fields → Option Value
get key end = none
get key (field k v rest) = if k == key then some v else get key rest

-- `{ ...fields, [key]: v }`
unfoldable pub set : String → Value → Fields → Fields
set key v end = field key v end
set key v (field k w rest) = if k == key then field key v rest else field k w (set key v rest)

-- `isRecord(v)`: an object that is no array, with its fields
abbrev pub as_record : Value → Option Fields
as_record (obj fields) = some fields
as_record _ = none

-- `typeof v === "string" ? v : null`
abbrev pub as_string : Option Value → Option String
as_string (some (str s)) = some s
as_string _ = none

-- `v && typeof v === "object"`
abbrev pub is_object : Value → Bool
is_object (arr items) = true
is_object (obj fields) = true
is_object _ = false

-- a field that is left out of the JSON where it is undefined
abbrev pub optional : String → Option Value → Fields → Fields
optional key none rest = rest
optional key (some v) rest = field key v rest

-- `(v as any)?.[key]`
abbrev pub prop : String → Option Value → Option Value
prop key (some (obj fields)) = get key fields
prop key _ = none

-- `v ?? undefined`
abbrev pub not_null : Option Value → Option Value
not_null (some null) = none
not_null v = v
