-- ===== src/Json.antt =====
-- The decoded JSON documents that the source passes around as `dict[str, Any]`: heartbeat details
-- and webhook payloads. A column that holds `json.dumps(v)` is modelled by `v`, since the source
-- only ever reads it back with `json.loads`.
use qdev_runner_control_plan.Prelude.{
  ℕ, String, Bool, true, false, Option, none, some, List, [], ◌∷◌, if◌then◌else◌, not, ◌==◌,
  string_eq, int_eq, ℤ, pos, truncate, Real, finite, nan, parts, of_int, value_error, type_error,
  attribute_error, overflow_error, key_error, Result, ok, raise,
}

mutual
  pub data Json : Type 0 where
    null : Json
    bool : Bool → Json
    int : ℤ → Json
    float : Real → Json
    str : String → Json
    arr : Items → Json
    obj : Fields → Json

  pub data Items : Type 0 where
    nil : Items
    cons : Json → Items → Items

  -- The items of a `dict`, in the order in which they were put.
  pub data Fields : Type 0 where
    end : Fields
    field : String → Json → Fields → Fields

-- d.get(key)
unfoldable pub get : Fields → String → Option Json
get end k = none
get (field j v d) k = if j == k then some v else get d k

-- d[key] = value
unfoldable pub put : Fields → String → Json → Fields
put end k v = field k v end
put (field j w d) k v = if j == k then field k v d else field j w (put d k v)

-- d.get(key, default)
abbrev pub get_or : Fields → String → Json → Json
get_or d k v = elim (get d k) [ none ↦ v | some w ↦ w ]

-- d[key]
abbrev pub index : Fields → String → Result Json
index d k = elim (get d k) [ none ↦ raise key_error | some v ↦ ok v ]

-- v[key], where v was found to be a dictionary or the lookup fails
abbrev pub subscript : Json → String → Result Json
subscript (obj d) k = index d k
subscript _ k = raise type_error

-- v.get(key, default), on any value
abbrev pub get_attr : Json → String → Json → Result Json
get_attr (obj d) k v = ok (get_or d k v)
get_attr _ k v = raise attribute_error

abbrev pub is_dict : Json → Bool
is_dict (obj d) = true
is_dict _ = false

-- `v is True`
abbrev pub is_true : Json → Bool
is_true (bool b) = b
is_true _ = false

-- bool(v)
abbrev pub truthy : Json → Bool
truthy null = false
truthy (bool b) = b
truthy (int z) = not (z == pos 0)
truthy (float (finite z)) = not (z == pos 0)
truthy (float _) = true
truthy (str s) = not (s == "")
truthy (arr nil) = false
truthy (arr _) = true
truthy (obj end) = false
truthy (obj _) = true

-- v == s for a text s
abbrev pub equals_text : Json → String → Bool
equals_text (str t) s = t == s
equals_text _ s = false

-- The standard library's conversions of texts, which the source leaves to Python: int(text),
-- float(text), str(value) of a value that is no text, and the time of
-- datetime.fromisoformat(text.replace("Z", "+00:00")). `none` is a ValueError.
pub record Python : Type 0 where
  pub int_of_text : String → Option ℤ
  pub float_of_text : String → Option Real
  pub text_of_value : Json → String
  pub time_of_text : String → Option ℕ

module _ (py : Python) where
  -- int(v)
  unfoldable pub to_int : Json → Result ℤ
  to_int null = raise type_error
  to_int (bool b) = ok (if b then pos 1 else pos 0)
  to_int (int z) = ok z
  to_int (float (finite z)) = ok (truncate z parts)
  to_int (float nan) = raise (value_error "cannot convert float NaN to integer")
  to_int (float _) = raise overflow_error
  to_int (str s) = elim (py.int_of_text s) [
    | none ↦ raise (value_error "invalid literal for int()")
    | some z ↦ ok z
  ]
  to_int (arr xs) = raise type_error
  to_int (obj d) = raise type_error

  -- float(v)
  unfoldable pub to_float : Json → Result Real
  to_float null = raise type_error
  to_float (bool b) = ok (of_int (if b then pos 1 else pos 0))
  to_float (int z) = ok (of_int z)
  to_float (float x) = ok x
  to_float (str s) = elim (py.float_of_text s) [
    | none ↦ raise (value_error "could not convert string to float")
    | some x ↦ ok x
  ]
  to_float (arr xs) = raise type_error
  to_float (obj d) = raise type_error

  -- str(v)
  unfoldable pub to_text : Json → String
  to_text (str s) = s
  to_text v = py.text_of_value v

-- The characters of a text, each as a text.
characters : String → List Json
characters String.[] = []
characters (String.◌∷◌ c s) = str (String.◌∷◌ c String.[]) ∷ characters s

elements : Items → List Json
elements nil = []
elements (cons v xs) = v ∷ elements xs

keys : Fields → List Json
keys end = []
keys (field k v d) = str k ∷ keys d

-- The values that `for item in v` runs through.
unfoldable pub iterate : Json → Result (List Json)
unfolding characters elements keys
iterate (str s) = ok (characters s)
iterate (arr xs) = ok (elements xs)
iterate (obj d) = ok (keys d)
iterate _ = raise type_error
