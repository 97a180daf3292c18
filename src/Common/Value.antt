-- ===== src/Common/Value.antt =====
-- JSON values, the `Any` of the metadata dicts. `neg n` is -(n + 1), and a float is
-- carried as the text that Python prints.
use kafka_a2a.Common.{
  ℕ, suc, String, Bool, true, false, not, Option, none, some, List, [], ◌∷◌, ◌==◌, ◌||◌, nat_eq,
  if◌then◌else◌,
}
use Prim.Native.String.{◌++◌ as cat}
use kafka_a2a.Common.Dict.{Dict}
use kafka_a2a.Common.Text.{decimal}

mutual
  pub data Value : Type 0 where
    null : Value
    bool : Bool → Value
    nonneg : ℕ → Value
    neg : ℕ → Value
    float : String → Value
    str : String → Value
    arr : Items → Value
    obj : Fields → Value

  -- the fields of an object, in their order
  pub data Fields : Type 0 where
    field : String → Value → Fields → Fields
    end : Fields

  -- the elements of an array
  pub data Items : Type 0 where
    cons : Value → Items → Items
    nil : Items

-- The metadata of a message, a task or a request.
abbrev pub Metadata : Type 0
Metadata = Dict Value

-- `value in (None, "", [], {}, ())`
abbrev pub is_blank : Value → Bool
is_blank null = true
is_blank (str s) = s == ""
is_blank (arr nil) = true
is_blank (obj end) = true
is_blank _ = false

-- `m or None`
abbrev pub none_if_empty : Metadata → Option Metadata
none_if_empty [] = none
none_if_empty (e ∷ m) = some (e ∷ m)

-- `m or {}`
abbrev pub or_empty : Option Metadata → Metadata
or_empty none = []
or_empty (some m) = m

-- `bool(v)`
abbrev pub is_truthy : Value → Bool
is_truthy null = false
is_truthy (bool b) = b
is_truthy (nonneg n) = not (nat_eq n 0)
is_truthy (neg n) = true
is_truthy (float s) = not (s == "0.0" || s == "-0.0")
is_truthy (str s) = not (s == "")
is_truthy (arr nil) = false
is_truthy (arr (cons v xs)) = true
is_truthy (obj end) = false
is_truthy (obj (field k v fs)) = true

abbrev pub is_dict : Value → Bool
is_dict (obj fs) = true
is_dict _ = false

-- `fs.get(k)`
unfoldable pub get_field : String → Fields → Option Value
get_field k end = none
get_field k (field j v fs) = if j == k then some v else get_field k fs

-- a dict as a value
unfoldable pub fields_of : Metadata → Fields
fields_of [] = end
fields_of ((k, v) ∷ m) = field k v (fields_of m)

-- a list of values as a value
unfoldable pub items_of : List Value → Items
items_of [] = nil
items_of (v ∷ vs) = cons v (items_of vs)

-- a value as a dict
unfoldable pub dict_of : Fields → Metadata
dict_of end = []
dict_of (field k v fs) = (k, v) ∷ dict_of fs

-- `a or b` on optional values
abbrev pub first_truthy : Option Value → Option Value → Option Value
first_truthy none y = y
first_truthy (some v) y = if is_truthy v then some v else y

abbrev pub is_truthy? : Option Value → Bool
is_truthy? none = false
is_truthy? (some v) = is_truthy v

-- `str(v)`, where `repr` prints the lists and the dicts
unfoldable pub text_of : (Value → String) → Value → String
text_of repr null = "None"
text_of repr (bool true) = "True"
text_of repr (bool false) = "False"
text_of repr (nonneg n) = decimal n
text_of repr (neg n) = cat "-" (decimal (suc n))
text_of repr (float s) = s
text_of repr (str s) = s
text_of repr v = repr v
