-- ===== src/Token/Value.antt =====
-- include/token.h: `struct Token`.
use cact.Prelude.{ℕ, Option, none, some}
use cact.Platform.{Platform}
use cact.Token.{TokenKind}

module _ ⦃env : Platform⦄ where
  -- The union; `no_value` is one that was left zero by the initialiser of its token.
  pub data Value : Type 0 where
    no_value : Value
    as_name : ℕ → Value
    as_int : ℕ → Value
    as_float : env.Float → Value
    as_double : env.Double → Value

  pub record Token : Type 0 where
    pub kind : TokenKind
    pub span_start : ℕ
    pub span_end : ℕ
    pub value : Value

  -- Reads of the union. Another member than the one written gives what the platform says.
  abbrev pub value_name : Value → ℕ
  value_name no_value = 0
  value_name (as_name symbol) = symbol
  value_name (as_int i) = env.name_of_int i
  value_name (as_float x) = env.name_of_float x
  value_name (as_double x) = env.name_of_double x

  -- The literals of the program read the member that was written.
  abbrev pub value_int : Value → Option ℕ
  value_int (as_int i) = some i
  value_int _ = none

  abbrev pub value_float : Value → Option env.Float
  value_float (as_float x) = some x
  value_float _ = none

  abbrev pub value_double : Value → Option env.Double
  value_double (as_double x) = some x
  value_double _ = none
