-- ===== src/Parser/Relation.antt =====
-- A relation between the states before and after that every step of the parser keeps, and the
-- rules by which composed pieces keep it.
pub mod Steps
pub mod Expr
pub mod Decl
pub mod Stmt
pub mod Whole
use cact.Prelude.{ℕ, Bool, true, false, Option, if◌then◌else◌}
use cact.Context.{Message, ctx_error}
use cact.Lexer.Next.{lexer_next}
use cact.Outcome.{Outcome, fault, out_of_fuel, ok}
use cact.Parser.Monad.{Parser, Parse, continue, ◌>>=◌, ◌>>◌, pure, modify, lift, when}
use cact.Platform.{Platform}
use cact.Sema.{sema_scope_enter, sema_scope_leave, sema_define_var}
use cact.Types.{TypePtr, TypeStore}

module _ ⦃env : Platform⦄ where
  -- What each primitive step may do to the state; scopes are entered and left in pairs.
  pub record Stable (R : Parser → Parser → Type 0) : Type 0 where
    pub same : (p : Parser) → R p p
    pub chain : (p q r : Parser) → R p q → R q r → R p r
    pub reads :
        (p : Parser)
        → R p (record p {
          curr = (lexer_next p.ctx p.lex).0;
          ctx = (lexer_next p.ctx p.lex).1;
          lex = (lexer_next p.ctx p.lex).2;
        })
    pub shifts : (p : Parser) → R p (record p { prev = p.curr })
    pub reports :
        (p : Parser) (tok : Option ℕ) (msg : Message)
        → R p (record p { ctx = ctx_error p.ctx tok msg })
    pub panics : (p : Parser) (b : Bool) → R p (record p { panic_mode = b })
    pub defines :
        (p : Parser) (x : ℕ) (ty : TypePtr) (is_const : Bool)
        → R p (record p {
          ctx = (sema_define_var p.ctx p.sema x ty is_const).1;
          sema = (sema_define_var p.ctx p.sema x ty is_const).2;
        })
    pub allocates :
        (p : Parser) (s : TypeStore) → R p (record p { ctx = record (p.ctx) { types = s } })
    pub interns :
        (p : Parser) (itn : env.Interner) → R p (record p { ctx = record (p.ctx) { itn = itn } })
    pub brackets :
        (p q : Parser)
        → R (record p { sema = sema_scope_enter p.sema }) q
        → R p (record q { sema = sema_scope_leave q.sema })

  -- Of a run that comes to its end.
  abbrev pub After : {A : Type 0} → (Parser → Type 0) → Outcome (A × Parser) → Type 0
  After P (ok (a, p)) = P p
  After P fault = Unit
  After P out_of_fuel = Unit

  abbrev pub Keeps : {A : Type 0} → (Parser → Parser → Type 0) → Parse A → Type 0
  Keeps R m = (p : Parser) → After (R p) (m p)

  pub After-mono :
      {A : Type 0} (P Q : Parser → Type 0) (o : Outcome (A × Parser))
      → ((q : Parser) → P q → Q q)
      → After P o
      → After Q o
  After-mono P Q (ok (a, q)) f h = f q h
  After-mono P Q fault f h = tt
  After-mono P Q out_of_fuel f h = tt

  module _ {R : Parser → Parser → Type 0} (st : Stable R) where
    After-continue :
        {A B : Type 0} (p : Parser) (m : Outcome (A × Parser)) (k : A → Parse B)
        → After (R p) m
        → ((a : A) → Keeps R (k a))
        → After (R p) (continue m k)
    After-continue p (ok (a, q)) k h hk =
        After-mono (R q) (R p) (k a q) (λ r h'. st.chain p q r h h') (hk a q)
    After-continue p fault k h hk = tt
    After-continue p out_of_fuel k h hk = tt

    pub Keeps->>= :
        {A B : Type 0} (m : Parse A) (k : A → Parse B)
        → Keeps R m
        → ((a : A) → Keeps R (k a))
        → Keeps R (m >>= k)
    Keeps->>= m k h hk p = After-continue p (m p) k (h p) hk

    pub Keeps-pure : {A : Type 0} (a : A) → Keeps R (pure a)
    Keeps-pure a p = st.same p

    pub Keeps-lift : {A : Type 0} (m : Outcome A) → Keeps R (lift m)
    Keeps-lift (ok a) p = st.same p
    Keeps-lift fault p = tt
    Keeps-lift out_of_fuel p = tt

    pub Keeps-if :
        {A : Type 0} (b : Bool) (m n : Parse A)
        → Keeps R m
        → Keeps R n
        → Keeps R (if b then m else n)
    Keeps-if true m n hm hn = hm
    Keeps-if false m n hm hn = hn

    pub Keeps-when : (b : Bool) (m : Parse (Unit {0})) → Keeps R m → Keeps R (when b m)
    Keeps-when true m h p = h p
    Keeps-when false m h p = st.same p

    After-within :
        {A B : Type 0} (p : Parser) (o : Outcome (A × Parser)) (k : A → Parse B)
        → After (R (record p { sema = sema_scope_enter p.sema })) o
        → ((a : A) → Keeps R (k a))
        → After
            (R p)
            (continue o λ a. do modify λ q. record q { sema = sema_scope_leave q.sema }; k a)
    After-within p (ok (a, q)) k h hk =
        After-continue p (ok (a, record q { sema = sema_scope_leave q.sema })) k (st.brackets p q h)
          hk
    After-within p fault k h hk = tt
    After-within p out_of_fuel k h hk = tt

    -- A piece between `sema_scope_enter` and `sema_scope_leave`, and what follows.
    pub Keeps-within :
        {A B : Type 0} (m : Parse A) (k : A → Parse B)
        → Keeps R m
        → ((a : A) → Keeps R (k a))
        → Keeps R (do
          modify λ q. record q { sema = sema_scope_enter q.sema }
          a ← m
          modify λ q. record q { sema = sema_scope_leave q.sema }
          k a)
    Keeps-within m k h hk p = After-within p (m entered) k (h entered) hk
      where
        entered : Parser
        entered = record p { sema = sema_scope_enter p.sema }
