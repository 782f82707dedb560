-- ===== src/Parser/Halting.antt =====
-- The tokens that are left to a parser, and what it takes for a piece of the parser to come to an
-- end before they are used up.
pub mod Steps
pub mod Checks
pub mod Expr
pub mod Decl
pub mod Stmt
pub mod TopLevel
pub mod Whole
use cact.Prelude.{
  ℕ, ◌+◌, ◌-◌, ◌≤◌, ◌≡◌, refl, Bool, true, false, List, arith, if◌then◌else◌, length,
}
use cact.Outcome.{Outcome, fault, out_of_fuel, ok, Halts}
use cact.Parser.Monad.{Parser, Parse, continue, lift}
use cact.Parser.Tokens.{mem_kind}
use cact.Platform.{Platform}
use cact.Token.{TokenKind, eof, same_kind}
use cact.Types.{TypeStore}
use cact.Types.Ranked.Kept.{Follows}

abbrev pub weight : TokenKind → ℕ
weight k = if same_kind k eof then 0 else 1

-- One or no token at hand.
abbrev pub cost : Bool → ℕ
cost b = if b then 1 else 0

pub cost-le : (b : Bool) → cost b ≤ 1
cost-le true = omega arith
cost-le false = omega arith

module _ ⦃env : Platform⦄ where
  -- The bytes that are not read, and the current token unless it is the end.
  abbrev pub left : Parser → ℕ
  left p = length p.lex.content - p.lex.cursor + weight p.curr.kind

  -- A run with fuel left, and then `R` of its result.
  pub data Done {A : Type 0} (R : A → Parser → Type 0) : Outcome (A × Parser) → Type 0 where
    done : {a : A} {p : Parser} → R a p → Done R (ok (a, p))
    faulted : Done R fault

  pub Done-bind :
      {A B : Type 0} {R : A → Parser → Type 0} {S : B → Parser → Type 0} (m : Outcome (A × Parser))
      (k : A → Parse B)
      → Done R m
      → ((a : A) (p : Parser) → R a p → Done S (k a p))
      → Done S (continue m k)
  Done-bind (ok (a, p)) k (done h) hk = hk a p h
  Done-bind fault k h hk = faulted
  Done-bind out_of_fuel k h hk = elim h [ ]

  pub Done-mono :
      {A : Type 0} {R S : A → Parser → Type 0} (m : Outcome (A × Parser))
      → Done R m
      → ((a : A) (p : Parser) → R a p → S a p)
      → Done S m
  Done-mono (ok (a, p)) (done h) k = done (k a p h)
  Done-mono fault h k = faulted
  Done-mono out_of_fuel h k = elim h [ ]

  pub Done-lift :
      {A : Type 0} {R : A → Parser → Type 0} (m : Outcome A) (p : Parser)
      → Halts m
      → ((a : A) → R a p)
      → Done R (lift m p)
  Done-lift (ok a) p h k = done (k a)
  Done-lift fault p h k = faulted
  Done-lift out_of_fuel p h k = absurd h

  pub Done-if :
      {A : Type 0} {R : A → Parser → Type 0} (b : Bool) (m n : Parse A) (p : Parser)
      → (b ≡ true → Done R (m p))
      → (b ≡ false → Done R (n p))
      → Done R ((if b then m else n) p)
  Done-if true m n p hm hn = hm refl
  Done-if false m n p hm hn = hn refl

  -- Of a parse that began with `n` tokens at most and the types `s`: `c` tokens at least are used
  -- up, and the types are well formed,
  -- and no loop of the lexer was cut off.
  pub record At (n : ℕ) (s : TypeStore) (c : ℕ) (p : Parser) : Type 0 where
    pub room : left p + c ≤ n
    pub follows : Follows s p.ctx.types
    pub running : p.lex.cut_off ≡ false

  pub At-mono : {n : ℕ} {s : TypeStore} {p : Parser} (c d : ℕ) → d ≤ c → At n s c p → At n s d p
  At-mono c d k w = record {
    room = omega (arith, w.room);
    follows = w.follows;
    running = w.running;
  }

  -- A piece that uses up no more than `c` tokens in all, and ends.
  abbrev pub Ends : {A : Type 0} → ℕ → TypeStore → ℕ → Outcome (A × Parser) → Type 0
  Ends n s c o = Done (λ _ q. At n s c q) o

  -- A piece that ends, and uses up one token more if the first one is of the kinds `K`.
  abbrev pub Eats : {A : Type 0} → ℕ → TypeStore → List TokenKind → ℕ → Parse A → Parser → Type 0
  Eats n s K c m p = Done (λ _ q. At n s (cost (mem_kind p.curr.kind K) + c) q) (m p)

  pub Eats-Ends :
      {A : Type 0} {n : ℕ} {s : TypeStore} {c : ℕ} (K : List TokenKind) (m : Parse A) (p : Parser)
      → Eats n s K c m p
      → Ends n s c (m p)
  Eats-Ends {c} K m p h =
      Done-mono (m p) h λ _ q. At-mono (cost (mem_kind p.curr.kind K) + c) c (omega arith)
