-- ===== src/Domain/Config.antt =====
-- The configuration of rules, which is JSON: `JSONMap` and the readers of it in
-- accts-api/domain/helpers.go.
use paisa.Prelude.{
  ℕ, String, ◌==◌, Bool, false, List, [], ◌∷◌, Option, none, some, any, if◌then◌else◌,
}
use paisa.Prelude.Int.{ℤ, pos}
use paisa.Domain.Text.{trim_space}

-- A `float64`, as its bits.
pub data Float : Type 0 where
  bits : ℕ → Float

mutual
  -- `interface{}`: what JSON gives, and the types that the readers know besides.
  pub data Value : Type 0 where
    null : Value
    boolean : Bool → Value
    int : ℤ → Value
    float : Float → Value
    number : String → Value
    text : String → Value
    array : Values → Value
    strings : List String → Value
    object : Fields → Value

  pub data Values : Type 0 where
    nil : Values
    more : Value → Values → Values

  pub data Fields : Type 0 where
    empty : Fields
    field : String → Value → Fields → Fields

-- What the code takes from Go and its standard library on floats, numbers in text and times.
pub record Runtime : Type 0 where
  -- strconv.Atoi and strconv.ParseFloat, their errors dropped, and fmt.Sprint.
  pub atoi : String → ℤ
  pub parse_float : String → Float
  pub sprint : Value → String
  -- strings.EqualFold, and strings.Split at commas.
  pub equal_fold : String → String → Bool
  pub split : String → List String
  -- float64(i), int(f), f / g, f * g, math.Floor(f), f <= 0, f == 0.
  pub float_of_int : ℤ → Float
  pub int_of_float : Float → ℤ
  pub div_float : Float → Float → Float
  pub mul_float : Float → Float → Float
  pub floor : Float → Float
  pub at_most_zero : Float → Bool
  pub is_zero : Float → Bool
  -- time.Time.Format, of a time in nanoseconds.
  pub format : String → ℤ → String

-- `config[key]`
unfoldable pub lookup : Fields → String → Option Value
lookup empty key = none
lookup (field k v rest) key = let later = lookup rest key in if k == key then some v else later

module _ (rt : Runtime) where
  -- `IntFromAny`
  unfoldable pub int_from_any : Value → ℤ
  int_from_any (int i) = i
  int_from_any (float f) = rt.int_of_float f
  int_from_any (number s) = rt.atoi s
  int_from_any (text s) = rt.atoi s
  int_from_any _ = pos 0

  -- `FloatFromAny`
  unfoldable pub float_from_any : Value → Float
  float_from_any (int i) = rt.float_of_int i
  float_from_any (float f) = f
  float_from_any (number s) = rt.parse_float s
  float_from_any (text s) = rt.parse_float s
  float_from_any _ = rt.float_of_int (pos 0)

  -- `ConfigInt`
  unfoldable pub config_int : Fields → List String → ℤ
  config_int config [] = pos 0
  config_int config (key ∷ keys) =
      let later = config_int config keys in
      elim (lookup config key) [ none ↦ later | some value ↦ int_from_any value ]

  -- `ConfigFloat`
  unfoldable pub config_float : Fields → List String → Float
  config_float config [] = rt.float_of_int (pos 0)
  config_float config (key ∷ keys) =
      let later = config_float config keys in
      elim (lookup config key) [ none ↦ later | some value ↦ float_from_any value ]

  -- `StringFromAny(config[key])`: a missing key is the zero value, nil.
  unfoldable pub string_from_any : Option Value → String
  string_from_any none = ""
  string_from_any (some null) = ""
  string_from_any (some v) = rt.sprint v

  abbrev sprints : Values → List String
  sprints nil = []
  sprints (more v vs) = rt.sprint v ∷ sprints vs

  -- The type switch of `StringSliceConfig`.
  unfoldable pub strings_of : Value → List String
  strings_of (array vs) = sprints vs
  strings_of (strings ss) = ss
  strings_of (text s) = if s == "" then [] else rt.split s
  strings_of _ = []

  -- `StringSliceConfig`: a nil slice and an empty one are both the empty list.
  unfoldable pub string_slice_config : Fields → String → List String
  unfolding strings_of
  string_slice_config config key = elim (lookup config key) [ none ↦ [] | some v ↦ strings_of v ]

  -- `ContainsString`
  unfoldable pub contains_string : List String → String → Bool
  contains_string values target =
      any (λ value. rt.equal_fold (trim_space value) (trim_space target)) values

-- The type tests of `BoolConfig`.
unfoldable pub bool_of : Value → Bool
bool_of (boolean b) = b
bool_of (text s) = s == "true"
bool_of _ = false

-- `BoolConfig`
unfoldable pub bool_config : Fields → String → Bool
unfolding bool_of
bool_config config key = elim (lookup config key) [ none ↦ false | some v ↦ bool_of v ]
