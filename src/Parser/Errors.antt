-- ===== src/Parser/Errors.antt =====
-- What a parse reports: from its relation to the state before, Relation.
use cact.Prelude.{ℕ, Bool, Option, none, some, List, [], ◌∷◌}
use cact.Ast.{SemaSymbol}
use cact.Context.{Context}
use cact.Context.Errors.{SpeaksOnce, ctx_error-SpeaksOnce}
use cact.Lexer.{Lexer}
use cact.Lexer.Next.{lexer_next}
use cact.Lexer.Next.Reports.{lexer_next-context}
use cact.Parser.Monad.{Parser}
use cact.Parser.Relation.{Stable, Keeps}
use cact.Parser.Relation.Steps.{advance_token-Keeps}
use cact.Parser.Relation.Whole.{parser_parse-Keeps}
use cact.Parser.Tokens.{advance_token}
use cact.Parser.TopLevel.{parser_parse}
use cact.Platform.{Platform}
use cact.Sema.{Scope, Sema, define_in, define_scopes, sema_define_var}
use cact.Types.{TypePtr}

module _ ⦃env : Platform⦄ where
  -- A piece leads from a context that spoke once at most to such a context.
  abbrev pub KeepsSpeaking : Parser → Parser → Type 0
  KeepsSpeaking p q = SpeaksOnce p.ctx → SpeaksOnce q.ctx

  defined_in :
      (ctx : Context) (s : Sema) (sc : Scope) (parents : List Scope) (x : ℕ) (ty : TypePtr)
      (is_const : Bool) (old : Option SemaSymbol)
      → SpeaksOnce ctx
      → SpeaksOnce (define_in ctx s sc parents x ty is_const old).1
  defined_in ctx s sc parents x ty is_const (some old) h = ctx_error-SpeaksOnce ctx none _ h
  defined_in ctx s sc parents x ty is_const none h = h

  defined_scopes :
      (ctx : Context) (s : Sema) (scopes : List Scope) (x : ℕ) (ty : TypePtr) (is_const : Bool)
      → SpeaksOnce ctx
      → SpeaksOnce (define_scopes ctx s scopes x ty is_const).1
  unfolding define_scopes
  defined_scopes ctx s [] x ty is_const h = h
  defined_scopes ctx s (sc ∷ parents) x ty is_const h =
      defined_in ctx s sc parents x ty is_const (env.map_get SemaSymbol sc x) h

  sema_define_var-SpeaksOnce :
      (ctx : Context) (s : Sema) (x : ℕ) (ty : TypePtr) (is_const : Bool)
      → SpeaksOnce ctx
      → SpeaksOnce (sema_define_var ctx s x ty is_const).1
  unfolding sema_define_var
  sema_define_var-SpeaksOnce ctx s x ty is_const h = defined_scopes ctx s s.scopes x ty is_const h

  lexer_next-SpeaksOnce :
      (ctx : Context) (l : Lexer) → SpeaksOnce ctx → SpeaksOnce (lexer_next ctx l).1
  lexer_next-SpeaksOnce ctx l h =
      lexer_next-context {P = SpeaksOnce} ctx_error-SpeaksOnce
        (λ c itn k. record { flags_agree = k.flags_agree; one_at_most = k.one_at_most }) ctx h l

  KeepsSpeaking-stable : Stable KeepsSpeaking
  KeepsSpeaking-stable = record {
    same = λ p h. h;
    chain = λ p q r f g h. g (f h);
    reads = λ p h. lexer_next-SpeaksOnce p.ctx p.lex h;
    shifts = λ p h. h;
    reports = λ p tok msg h. ctx_error-SpeaksOnce p.ctx tok msg h;
    panics = λ p b h. h;
    defines = λ p x ty is_const h. sema_define_var-SpeaksOnce p.ctx p.sema x ty is_const h;
    allocates = λ p s h. record { flags_agree = h.flags_agree; one_at_most = h.one_at_most };
    interns = λ p itn h. record { flags_agree = h.flags_agree; one_at_most = h.one_at_most };
    brackets = λ p q f h. f h;
  }

  pub parser_parse-KeepsSpeaking : (f : ℕ) → Keeps KeepsSpeaking (parser_parse f)
  parser_parse-KeepsSpeaking f = parser_parse-Keeps KeepsSpeaking-stable (λ p ty h. h) f

  pub advance_token-KeepsSpeaking : Keeps KeepsSpeaking advance_token
  advance_token-KeepsSpeaking = advance_token-Keeps KeepsSpeaking-stable
