-- ===== src/Json.antt =====
-- The values that `json.loads` and `response.json()` return, and how the program reads them:
-- `d.get(k)`, `str(v or "")`, `dict(v or {})`, `v or []`.
use webex_kms_sdk.Base.{
  ◌+◌, ◌-◌, ◌/◌, String, Bool, true, false, Option, none, some, List, [], ◌∷◌, ◌==◌, string_eq, eqb,
  if◌then◌else◌,
}
use webex_kms_sdk.Number.{ℤ, pos, negsuc, Float, finite, nan, Bytes, one, int_truthy, float_truthy}
use webex_kms_sdk.Exceptions.{
  Result, ok, err, value_error, type_error, overflow_error, attribute_error,
}
use webex_kms_sdk.Text.{nonempty}

mutual
  pub data Json : Type 0 where
    null : Json
    boolean : Bool → Json
    integer : ℤ → Json
    float : Float → Json
    string : String → Json
    array : Items → Json
    object : Fields → Json

  pub data Items : Type 0 where
    nil : Items
    cons : Json → Items → Items

  pub data Fields : Type 0 where
    end : Fields
    field : String → Json → Fields → Fields

-- Python's own conversions, on the values for which the program leaves them to it.
pub record Python : Type 0 where
  -- `str(v)`, where v is no `str`
  pub repr : Json → String
  -- `repr(s)`, of a `str`
  pub quoted : String → String
  -- `dict(v)`, where v is a list
  pub dict_of : Items → Result Fields
  -- `int(v)`, where v is a `str`
  pub int_of : String → Result ℤ
  -- `json.loads`, of text and of bytes
  pub loads : String → Result Json
  pub loads_bytes : Bytes → Result Json
  -- `s.encode("utf-8")`, `b.decode("utf-8")` and `b.decode("utf-8", errors="ignore")`
  pub encode : String → Bytes
  pub decode : Bytes → Result String
  pub decode_ignore : Bytes → String
  -- `json.dumps(v, separators=(",", ":"))`
  pub dumps : Json → String
  -- `float(v)`, where v is a `str`: `none` for a ValueError
  pub float_of : String → Option Float

-- `d.get(k)`, which is `None` for a missing key.
unfoldable pub get : String → Fields → Json
unfolding string_eq
get k end = null
get k (field j v fs) = if k == j then v else get k fs

-- `bool(v)`
abbrev pub truthy : Json → Bool
truthy null = false
truthy (boolean b) = b
truthy (integer z) = int_truthy z
truthy (float x) = float_truthy x
truthy (string s) = nonempty s
truthy (array nil) = false
truthy (array (cons _ _)) = true
truthy (object end) = false
truthy (object (field _ _ _)) = true

-- `isinstance(v, dict)`, with the dict
abbrev pub as_dict : Json → Option Fields
as_dict (object fs) = some fs
as_dict _ = none

-- `data.get(…)` needs a dict.
abbrev pub expect_dict : Json → Result Fields
expect_dict (object fs) = ok fs
expect_dict _ = err (attribute_error "object has no attribute 'get'")

-- `isinstance(v, str)`, with the text
abbrev pub as_text : Json → Option String
as_text (string s) = some s
as_text _ = none

-- `isinstance(v, list)`, with the items
abbrev pub as_list : Json → Option Items
as_list (array xs) = some xs
as_list _ = none

abbrev pub to_list : Items → List Json
to_list nil = []
to_list (cons x xs) = x ∷ to_list xs

abbrev pub from_list : List Json → Items
from_list [] = nil
from_list (x ∷ xs) = cons x (from_list xs)

-- Iteration over a text gives its characters, over a dict its keys.
unfoldable pub characters : String → List Json
characters String.[] = []
characters (String.◌∷◌ c s) = string (String.◌∷◌ c String.[]) ∷ characters s

unfoldable pub key_list : Fields → List Json
key_list end = []
key_list (field k _ fs) = string k ∷ key_list fs

-- `for x in (v or [])`
unfoldable pub iterate : Json → Result (List Json)
unfolding characters key_list
iterate (array xs) = ok (to_list xs)
iterate (string s) = ok (characters s)
iterate (object fs) = ok (key_list fs)
iterate v = if truthy v then err (type_error "object is not iterable") else ok []

-- `int(x)`, which drops the fraction.
unfoldable pub truncate : Float → Result ℤ
unfolding one
truncate (finite (pos n)) = ok (pos (n / one))
truncate (finite (negsuc n)) =
    let q = (n + 1) / one in ok (if eqb q 0 then pos 0 else negsuc (q - 1))
truncate nan = err (value_error "cannot convert float NaN to integer")
truncate _ = err (overflow_error "cannot convert float infinity to integer")

-- The dicts among the values: `for k in … if isinstance(k, dict)`.
unfoldable pub dicts : List Json → List Fields
dicts [] = []
dicts (object fs ∷ vs) = fs ∷ dicts vs
dicts (_ ∷ vs) = dicts vs

module _ (py : Python) where
  -- `str(v)`
  unfoldable pub to_text : Json → String
  to_text (string s) = s
  to_text v = py.repr v

  -- `str(v or "")`
  unfoldable pub text_or_empty : Json → String
  unfolding to_text
  text_or_empty v = if truthy v then to_text v else ""

  -- `dict(v or {})`
  unfoldable pub dict_or_empty : Json → Result Fields
  dict_or_empty (object fs) = ok fs
  dict_or_empty (array nil) = ok end
  dict_or_empty (array (cons x xs)) = py.dict_of (cons x xs)
  dict_or_empty (string s) =
      if nonempty s then err (value_error "dictionary update sequence") else ok end
  dict_or_empty v = if truthy v then err (type_error "object is not iterable") else ok end

  -- `int(v or 0)`
  unfoldable pub int_or_zero : Json → Result ℤ
  unfolding truncate
  int_or_zero null = ok (pos 0)
  int_or_zero (boolean b) = ok (pos (if b then 1 else 0))
  int_or_zero (integer z) = ok z
  int_or_zero (float x) = truncate x
  int_or_zero (string s) = if nonempty s then py.int_of s else ok (pos 0)
  int_or_zero v = if truthy v then err (type_error "int() argument") else ok (pos 0)
