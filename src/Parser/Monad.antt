-- ===== src/Parser/Monad.antt =====
-- include/parser.h: `struct Parser`, and the steps that the parser is composed of.
use cact.Prelude.{Bool, true, false}
use cact.Context.{Context}
use cact.Lexer.{Lexer}
use cact.Outcome.{Outcome, fault, out_of_fuel, ok}
use cact.Platform.{Platform}
use cact.Sema.{Sema}
use cact.Token.Value.{Token}

module _ ⦃env : Platform⦄ where
  -- The context that the parser, the lexer and the sema point to is one, and stands here once.
  pub record Parser : Type 0 where
    pub ctx : Context
    pub lex : Lexer
    pub sema : Sema
    pub curr : Token
    pub prev : Token
    pub panic_mode : Bool

  -- A piece of the parser that returns an `A`.
  abbrev pub Parse : Type 0 → Type 0
  Parse A = Parser → Outcome (A × Parser)

  abbrev pub continue {ℓ} :
      {A : Type ℓ} {B : Type 0} → Outcome (A × Parser) → (A → Parse B) → Outcome (B × Parser)
  continue (ok (a, p)) k = k a p
  continue fault k = fault
  continue out_of_fuel k = out_of_fuel

  infixl 5 ◌>>=◌ ◌>>◌
  abbrev pub ◌>>=◌ : {A B : Type 0} → Parse A → (A → Parse B) → Parse B
  ◌>>=◌ m k p = continue (m p) k

  abbrev pub ◌>>◌ : {A B : Type 0} → Parse A → Parse B → Parse B
  ◌>>◌ m k p = continue (m p) (λ _. k)

  abbrev pub pure : {A : Type 0} → A → Parse A
  pure a p = ok (a, p)

  abbrev pub run : {A : Type 0} → Parser → Parse A → Outcome (A × Parser)
  run p m = m p

  abbrev pub state : Parse Parser
  state p = ok (p, p)

  abbrev pub modify : (Parser → Parser) → Parse (Unit {0})
  modify f p = ok (tt, f p)

  abbrev pub lift : {A : Type 0} → Outcome A → Parse A
  lift m p = elim m [ ok a ↦ ok (a, p) | fault ↦ fault | out_of_fuel ↦ out_of_fuel ]

  -- An `if` with no `else`.
  abbrev pub when : Bool → Parse (Unit {0}) → Parse (Unit {0})
  when true m = m
  when false m = pure tt
