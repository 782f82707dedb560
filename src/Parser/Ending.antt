-- ===== src/Parser/Ending.antt =====
-- A parse reads its file to the end: from its relation to the state before, Relation.
use cact.Prelude.{
  ℕ, zero, suc, ◌≡◌, refl, ap, inl, inr, Bool, true, false, Option, none, some, List, [], ◌∷◌,
  arith, leb, if◌then◌else◌, leb→le, leb→lt, Bool-cases, length,
}
use cact.Ast.{SemaSymbol, Nodes, no_nodes, test_null}
use cact.Context.{Message, text, Context, ctx_error}
use cact.Lexer.{Lexer}
use cact.Lexer.Comments.{Ahead, Ahead-refl, Ahead-trans}
use cact.Lexer.Next.{lexer_next}
use cact.Lexer.Next.Ending.{NoEndWord, AtEnd, lexer_next-AtEnd}
use cact.Lexer.Next.Reports.{lexer_next-context}
use cact.Lexer.Progress.Next.{lexer_next-Advances}
use cact.Outcome.{Outcome, fault, out_of_fuel, ok}
use cact.Parser.Monad.{Parser, Parse, continue, pure, lift, when}
use cact.Parser.Relation.{Stable, After, Keeps-lift, Keeps-when}
use cact.Parser.Relation.Steps.{advance_token-Keeps}
use cact.Parser.Relation.Whole.{parse_top_level-Keeps, install_builtins-Keeps, recover-Keeps}
use cact.Parser.Tokens.{advance_token, match_kind, on_match}
use cact.Parser.TopLevel.{
  parse_top_level, install_builtins, recover, parse_globals, parse_unit, parser_parse,
}
use cact.Platform.{Platform}
use cact.Platform.Laws.{CharLaws}
use cact.Sema.{Scope, Sema, sema_scope_enter, define_in, define_scopes, sema_define_var}
use cact.Token.{eof, same_kind}
use cact.Types.{TypePtr}

module _ ⦃env : Platform⦄ where
  -- No keyword stands for the end of the file, and where that token is at hand nothing is left.
  pub record Sober (p : Parser) : Type 0 where
    pub words : NoEndWord p.ctx
    pub end_here : same_kind p.curr.kind eof ≡ true → AtEnd p.lex

  -- What is read stays read, and the end is not announced before it is there.
  abbrev pub Reads : Parser → Parser → Type 0
  Reads p q = Ahead p.lex q.lex × (Sober p → Sober q)

  ctx_error-kw_map :
      (ctx : Context) (tok : Option ℕ) (msg : Message) → (ctx_error ctx tok msg).kw_map ≡ ctx.kw_map
  unfolding ctx_error
  ctx_error-kw_map ctx tok msg = elim (Bool-cases ctx.panic_mode) [
    | inl e ↦ rw e refl
    | inr e ↦ rw e refl
  ]

  ctx_error-NoEndWord :
      (ctx : Context) (tok : Option ℕ) (msg : Message)
      → NoEndWord ctx
      → NoEndWord (ctx_error ctx tok msg)
  ctx_error-NoEndWord ctx tok msg h x = rw (ctx_error-kw_map ctx tok msg) (h x)

  defined_words :
      (ctx : Context) (s : Sema) (scopes : List Scope) (x : ℕ) (ty : TypePtr) (is_const : Bool)
      → NoEndWord ctx
      → NoEndWord (define_scopes ctx s scopes x ty is_const).1
  unfolding define_scopes
  defined_words ctx s [] x ty is_const h = h
  defined_words ctx s (sc ∷ parents) x ty is_const h = go (env.map_get SemaSymbol sc x)
    where
      go : (o : Option SemaSymbol) → NoEndWord (define_in ctx s sc parents x ty is_const o).1
      go none = h
      go (some old) =
          ctx_error-NoEndWord ctx none (text "Redefinition of symbol in the same scope") h

  pub lexer_next-NoEndWord :
      (ctx : Context) (l : Lexer) → NoEndWord ctx → NoEndWord (lexer_next ctx l).1
  lexer_next-NoEndWord ctx l h =
      lexer_next-context {P = NoEndWord} ctx_error-NoEndWord (λ c itn k. k) ctx h l

  read_on :
      (laws : CharLaws env) (p : Parser)
      → Reads p (record p {
        curr = (lexer_next p.ctx p.lex).0;
        ctx = (lexer_next p.ctx p.lex).1;
        lex = (lexer_next p.ctx p.lex).2;
      })
  read_on laws p = (
    (lexer_next-Advances laws p.ctx p.lex).0,
    λ h. record {
      words = lexer_next-NoEndWord p.ctx p.lex h.words;
      end_here = λ e. lexer_next-AtEnd p.ctx p.lex h.words e;
    },
  )

  module _ (laws : CharLaws env) where
    Reads-stable : Stable Reads
    unfolding sema_define_var
    Reads-stable = record {
      same = λ p. (Ahead-refl p.lex, λ h. h);
      chain = λ p q r (a, f) (b, g). (Ahead-trans p.lex q.lex r.lex a b, λ h. g (f h));
      reads = λ p. read_on laws p;
      shifts = λ p. (Ahead-refl p.lex, λ h. record { words = h.words; end_here = h.end_here });
      reports = λ p tok msg. (
        Ahead-refl p.lex,
        λ h. record { words = ctx_error-NoEndWord p.ctx tok msg h.words; end_here = h.end_here },
      );
      panics = λ p b. (Ahead-refl p.lex, λ h. record { words = h.words; end_here = h.end_here });
      defines = λ p x ty is_const. (
        Ahead-refl p.lex,
        λ h. record {
          words = defined_words p.ctx p.sema p.sema.scopes x ty is_const h.words;
          end_here = h.end_here;
        },
      );
      allocates = λ p s. (Ahead-refl p.lex, λ h. record { words = h.words; end_here = h.end_here });
      interns = λ p itn. (Ahead-refl p.lex, λ h. record { words = h.words; end_here = h.end_here });
      brackets = λ p q (a, f). (
        a,
        λ h.
            let k = f (record { words = h.words; end_here = h.end_here }) in
            record { words = k.words; end_here = k.end_here },
      );
    }

    returns :
        (p : Parser) (ty : TypePtr)
        → Reads p (record p { sema = record (p.sema) { curr_func_ret = ty } })
    returns p ty = (Ahead-refl p.lex, λ h. record { words = h.words; end_here = h.end_here })

    Ahead-AtEnd : (l r : Lexer) → AtEnd l → Ahead l r → AtEnd r
    Ahead-AtEnd l r e a = elim (Bool-cases (leb (length r.content) r.cursor)) [
      | inl e' ↦ e'
      | inr e' ↦
          let in_l = leb→le (length l.content) l.cursor e in
          let in_r = leb→lt (length r.content) r.cursor e' in
          absurd (omega (arith, in_l, in_r, a.onward, ap length a.same_bytes))
    ]

    After-bind :
        {A B : Type 0} (P Q : Parser → Type 0) (m : Outcome (A × Parser)) (k : A → Parse B)
        → After P m
        → ((a : A) (q : Parser) → P q → After Q (k a q))
        → After Q (continue m k)
    After-bind P Q (ok (a, q)) k h hk = hk a q h
    After-bind P Q fault k h hk = tt
    After-bind P Q out_of_fuel k h hk = tt

    abbrev ReadAll : Parser → Type 0
    ReadAll q = AtEnd q.lex

    at_eof_word :
        (globals : Nodes) (next : Parse Nodes) (p : Parser)
        → Sober p
        → (same_kind p.curr.kind eof ≡ false → After ReadAll (next p))
        → After ReadAll (on_match eof (pure globals) next p)
    unfolding match_kind
    at_eof_word globals next p h hn = elim (Bool-cases (same_kind p.curr.kind eof)) [
      | inl e ↦ rw e (ended (h.end_here e) (advance_token p) (advance_token-Keeps Reads-stable p))
      | inr e ↦ rw e (hn e)
    ]
      where
        ended :
            AtEnd p.lex
            → (o : Outcome (Unit {0} × Parser)) → After (Reads p) o
            → After ReadAll (
                continue
                  (continue o (λ _. pure true))
                  (λ matched. if matched then pure globals else next))
        ended e (ok (u, q)) (a, f) = Ahead-AtEnd p.lex q.lex e a
        ended e fault h = tt
        ended e out_of_fuel h = tt

    globals-ReadAll :
        (f : ℕ) (globals : Nodes) (p : Parser) → Sober p → After ReadAll (parse_globals f globals p)
    unfolding parse_globals
    globals-ReadAll zero globals p h = tt
    globals-ReadAll (suc f) globals p h = at_eof_word globals _ p h λ _.
        After-bind (Reads p) ReadAll (parse_top_level f p) _
          (parse_top_level-Keeps Reads-stable returns f p)
          λ x q (_, g).
            After-bind (Reads q) ReadAll (lift (test_null x) q) _
              (Keeps-lift Reads-stable (test_null x) q)
              λ absent q' (_, g').
                After-bind (Reads q') ReadAll (when absent recover q') _
                  (Keeps-when Reads-stable absent recover (recover-Keeps Reads-stable returns) q')
                  λ _ r (_, g''). globals-ReadAll f _ r (g'' (g' (g h)))

    unit-ReadAll : (f : ℕ) (p : Parser) → Sober p → After ReadAll (parse_unit f p)
    unfolding parse_unit
    unit-ReadAll f p h =
        After-bind (Reads p) ReadAll (install_builtins p) _
          (install_builtins-Keeps Reads-stable returns p)
          λ _ q (_, g). globals-ReadAll f no_nodes q (g h)

    -- A parse that gives a result has read its file to the end, if no keyword stands for the end of
    -- the file and the current token is none that announces it too early.
    pub parser_parse-ReadAll :
        (f : ℕ) (p : Parser) → Sober p → After (λ q. AtEnd q.lex) (parser_parse f p)
    unfolding parser_parse
    parser_parse-ReadAll f p h =
        let inner : Parser = record p { sema = sema_scope_enter p.sema } in
        After-bind ReadAll ReadAll (parse_unit f inner) _
          (unit-ReadAll f inner (record { words = h.words; end_here = h.end_here }))
          λ globals q e. e
