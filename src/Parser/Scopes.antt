-- ===== src/Parser/Scopes.antt =====
-- Scopes over a whole parse: what is entered is left again.
use cact.Prelude.{ℕ, ◌≡◌, refl, sym, ap, ◌∙◌, Bool, Option, none, some, List, [], ◌∷◌}
use cact.Ast.{SemaSymbol}
use cact.Context.{Context}
use cact.Parser.Monad.{Parser}
use cact.Parser.Relation.{Stable, After}
use cact.Parser.Relation.Whole.{parser_parse-Keeps}
use cact.Parser.TopLevel.{parser_parse}
use cact.Platform.{Platform}
use cact.Sema.{
  Scope, Sema, sema_scope_enter, leave_scopes, sema_scope_leave, is_outermost, define_in,
  define_scopes, sema_define_var,
}
use cact.Types.{TypePtr}

module _ ⦃env : Platform⦄ where
  -- Only the innermost scope may differ, and there is one in both or in neither.
  pub record SameOuter (s s' : Sema) : Type 0 where
    pub parents_same : leave_scopes s'.scopes ≡ leave_scopes s.scopes
    pub both_empty : is_outermost s'.scopes ≡ is_outermost s.scopes

  abbrev Balanced : Parser → Parser → Type 0
  Balanced p q = SameOuter p.sema q.sema

  define_in-SameOuter :
      (ctx : Context) (s : Sema) (sc : Scope) (parents : List Scope) (x : ℕ) (ty : TypePtr)
      (is_const : Bool) (found : Option SemaSymbol)
      → s.scopes ≡ sc ∷ parents
      → SameOuter s ((define_in ctx s sc parents x ty is_const found).2)
  unfolding leave_scopes
  define_in-SameOuter ctx s sc parents x ty is_const (some old) e = record {
    parents_same = refl;
    both_empty = refl;
  }
  define_in-SameOuter ctx s sc parents x ty is_const none e = record {
    parents_same = sym (ap leave_scopes e);
    both_empty = sym (ap is_outermost e);
  }

  define_scopes-SameOuter :
      (ctx : Context) (s : Sema) (scopes : List Scope) (x : ℕ) (ty : TypePtr) (is_const : Bool)
      → s.scopes ≡ scopes
      → SameOuter s ((define_scopes ctx s scopes x ty is_const).2)
  unfolding define_scopes
  define_scopes-SameOuter ctx s [] x ty is_const e = record {
    parents_same = refl;
    both_empty = refl;
  }
  define_scopes-SameOuter ctx s (sc ∷ parents) x ty is_const e =
      define_in-SameOuter ctx s sc parents x ty is_const (env.map_get SemaSymbol sc x) e

  Balanced-stable : Stable Balanced
  unfolding sema_define_var sema_scope_enter sema_scope_leave leave_scopes
  Balanced-stable = record {
    same = λ p. record { parents_same = refl; both_empty = refl };
    chain = λ p q r h k. record {
      parents_same = k.parents_same ∙ h.parents_same;
      both_empty = k.both_empty ∙ h.both_empty;
    };
    reads = λ p. record { parents_same = refl; both_empty = refl };
    shifts = λ p. record { parents_same = refl; both_empty = refl };
    reports = λ p tok msg. record { parents_same = refl; both_empty = refl };
    panics = λ p b. record { parents_same = refl; both_empty = refl };
    defines =
        λ p x ty is_const. define_scopes-SameOuter p.ctx p.sema p.sema.scopes x ty is_const refl;
    allocates = λ p s. record { parents_same = refl; both_empty = refl };
    interns = λ p itn. record { parents_same = refl; both_empty = refl };
    brackets = λ p q h. record {
      parents_same = ap leave_scopes h.parents_same;
      both_empty = ap is_outermost h.parents_same;
    };
  }

  -- A parse that comes to an end leaves the enclosing scopes as they were and the number of scopes
  -- the same: every block and function left the scope that it entered, on error paths too.
  pub parser_parse-SameOuter :
      (f : ℕ) (p : Parser) → After (λ q. SameOuter p.sema q.sema) (parser_parse f p)
  parser_parse-SameOuter f p =
      parser_parse-Keeps Balanced-stable (λ p ty. record { parents_same = refl; both_empty = refl })
        f p
