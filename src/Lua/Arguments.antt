-- ===== src/Lua/Arguments.antt =====
-- lua/builtin.go: the arguments of the functions of the module, as the script passes them. Positions count
-- from 1, and a missing argument reads as nil. `none` is the panic that names the argument.
use logd_go.Base.{
  ℕ, zero, suc, ◌≡◌, Bool, Option, none, some, List, [], ◌∷◌, Bytes, ℤ, if◌then◌else◌,
}

-- The values of the machine (github.com/Shopify/go-lua) and its conversions. A value that holds a
-- `*logging.Log` holds its address.
pub record Values : Type 1 where
  pub Value : Type 0
  pub nil : Value
  -- `PushString` and `PushBoolean`.
  pub of_string : Bytes → Value
  pub of_boolean : Bool → Value
  -- `ToString`, `ToInteger`, `ToBoolean`, `IsBoolean` and `ToUserData`.
  pub to_string : Value → Option Bytes
  pub to_integer : Value → Option ℤ
  pub to_boolean : Value → Bool
  pub is_boolean : Value → Bool
  pub to_log : Value → Option ℕ
  pub to_string-of_string : (s : Bytes) → to_string (of_string s) ≡ some s

module _ (v : Values) where
  open v use {Value, nil, to_string, to_integer, to_boolean, is_boolean, to_log}

  abbrev pub argument : ℕ → List Value → Value
  argument i [] = nil
  argument zero (x ∷ xs) = nil
  argument (suc zero) (x ∷ xs) = x
  argument (suc (suc i)) (x ∷ xs) = argument (suc i) xs

  abbrev pub get_arg_log_ptr : ℕ → List Value → Option ℕ
  get_arg_log_ptr i xs = to_log (argument i xs)

  abbrev pub get_arg_string : ℕ → List Value → Option Bytes
  get_arg_string i xs = to_string (argument i xs)

  abbrev pub or_default : ℤ → Option ℤ → ℤ
  or_default d none = d
  or_default d (some z) = z

  abbrev pub get_optional_arg_int : ℕ → ℤ → List Value → ℤ
  get_optional_arg_int i d xs = or_default d (to_integer (argument i xs))

  abbrev pub get_arg_bool : ℕ → List Value → Option Bool
  get_arg_bool i xs = let x = argument i xs in if is_boolean x then some (to_boolean x) else none

  abbrev pub get_arg_int : ℕ → List Value → Option ℤ
  get_arg_int i xs = to_integer (argument i xs)
