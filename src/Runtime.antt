-- ===== src/Runtime.antt =====
-- What packages/monitoring/src takes from JavaScript itself: numbers, their text, regular
-- expressions, and values read by JSON.parse. The engine's own code only calls these.
use uptimeflow.Common.{Bool, Option}
use uptimeflow.Common.Int.{ℤ}
use uptimeflow.Common.Text.{Text}

-- How `typeof` and `== null` classify a value.
pub data View {ℓ} (N : Type ℓ) : Type ℓ where
  nullish object other : View N
  str : Text → View N
  num : N → View N

pub record Runtime : Type 1 where
  pub Number : Type 0
  pub Value : Type 0
  -- `Number(s)`, an integer as a number, `String(n)`
  pub number_of_text : Text → Number
  pub number_of_int : ℤ → Number
  pub text_of_number : Number → Text
  pub gt : Number → Number → Bool
  pub lt : Number → Number → Bool
  -- `new RegExp(r).test(s)`; `none` where it throws
  pub regex_test : Text → Text → Option Bool
  pub to_lower : Text → Text
  -- `JSON.parse`, `none` where it throws; `JSON.stringify`, `none` for undefined
  pub parse_json : Text → Option Value
  pub stringify : Value → Option Text
  pub view : Value → View Number
  -- `value[name]`
  pub property : Value → Text → Value
