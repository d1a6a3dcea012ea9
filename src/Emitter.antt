-- ===== src/Emitter.antt =====
-- internal/emitter: the SQL dialects. A Go value of type `any` is a `Value`; of a float the model
-- keeps what the code asks `math` and `strconv` for, and of a time its format in UTC.
pub mod Trino
pub mod Starrocks
pub mod Reader
pub mod Quoting
mod Tests
use Prim.Native.Nat.{ℕ, zero, suc, ◌+◌, ◌/◌, ◌%◌}
use semantic_operator.Prelude.{
  Text, Bool, true, false, ◌∷◌, ◌++◌, [], Option, none, some, codes, if◌then◌else◌, ◌==◌, ltb,
  Result, ok, err,
}
use semantic_operator.Prelude.Strings.{replace_byte}
use semantic_operator.Errors.{Error, unsupported_literal}

-- `finite` is `!IsNaN && !IsInf`; `integral` is set when `x == float64(int64(x))`, to the text of
-- that integer; `shortest` is `strconv.FormatFloat(x, 'g', -1, …)`.
pub record Float : Type 0 where
  pub finite : Bool
  pub integral : Option Text
  pub shortest : Text

-- The dynamic types that the type switches name, and any other. The three integer types are one,
-- with the sign first.
pub data Value : Type 0 where
  null other : Value
  string : Text → Value
  bool : Bool → Value
  int : Bool → ℕ → Value
  float32 float64 : Float → Value
  time : Text → Value

-- The decimal digits of a number; fuel above the number is enough.
unfoldable pub decimal_digits : ℕ → ℕ → Text
decimal_digits zero n = []
decimal_digits (suc fuel) n =
    let front = decimal_digits fuel (n / 10) in
    if ltb n 10 then (b'0' + n) ∷ [] else front ++ (b'0' + n % 10) ∷ []

abbrev pub decimal : ℕ → Text
decimal n = decimal_digits (suc n) n

-- `emitter.Dialect`, without the registry.
pub record Dialect : Type 0 where
  pub name : Text
  pub quote_ident : Text → Text
  pub qualify_table : Text → Text → Text → Text
  pub literal : Value → Result Error Text
  pub date_trunc : Text → Text → Text
  pub null_safe_eq : Text → Text → Text
  pub create_schema : Text → Text

-- A text between two quotes, the quotes in it doubled.
unfoldable pub quoted : ℕ → Text → Text
quoted q s = q ∷ replace_byte q (q ∷ q ∷ []) s ++ q ∷ []

unfoldable pub dotted : (Text → Text) → Text → Text → Text → Text
dotted quote catalog database table = quote catalog ++ b'.' ∷ quote database ++ b'.' ∷ quote table

-- `Literal`, but for the two cases in which the dialects differ.
unfoldable pub literal_with : (Text → Text) → (Text → Text) → Value → Result Error Text
literal_with text instant null = ok (codes "NULL")
literal_with text instant other = err unsupported_literal
literal_with text instant (string s) = ok (text s)
literal_with text instant (bool b) = ok (if b then codes "TRUE" else codes "FALSE")
literal_with text instant (int negative n) = ok (if negative then b'-' ∷ decimal n else decimal n)
literal_with text instant (float32 x) = ok x.shortest
literal_with text instant (float64 x) = elim x.integral [ some n ↦ ok n | none ↦ ok x.shortest ]
literal_with text instant (time t) = ok (instant t)

unfoldable pub date_trunc : Text → Text → Text
date_trunc grain scalar = codes "DATE_TRUNC('" ++ grain ++ codes "', " ++ scalar ++ codes ")"
