-- ===== src/Driver/Reading.antt =====
-- The pipeline from the tables of context.c to the end of a parse.
use cact.Prelude.{
  ℕ, zero, suc, ◌≤◌, ◌≡◌, refl, inl, inr, false, some, List, [], ◌∷◌, ◌==◌, Bool-cases, length,
  Bytes,
}
use cact.Ast.{Nodes}
use cact.Context.{map_ops_symbol, Context, install_keyword, install_keywords, context_init}
use cact.Driver.{parse_fuel}
use cact.Driver.Halting.{context_init-WellFormed, lexer_init-running, parser_init-Halts}
use cact.Lexer.{Lexer, lexer_init, fuel_of}
use cact.Lexer.Next.{lexer_next}
use cact.Lexer.Next.Ending.{is_end, pick, NoEndWord, AtEnd, lexer_next-AtEnd}
use cact.Outcome.{Outcome, fault, out_of_fuel, ok, ◌>>=◌, Ensures, Ensures-bind, Halts}
use cact.Parser.Ending.{Sober, lexer_next-NoEndWord, parser_parse-ReadAll}
use cact.Parser.Monad.{Parser}
use cact.Parser.Relation.{After}
use cact.Parser.Tokens.{next_token, advance_token}
use cact.Parser.TopLevel.{parser_init, parser_parse}
use cact.Platform.{Platform}
use cact.Platform.Laws.{MapLaws, CharLaws}
use cact.Sema.{sema_init}
use cact.Sema.Scopes.{map_ops_symbol-IsLawful}
use cact.Token.{TokenKind, error, same_kind, keywords}
use cact.Token.Value.{Token}
use cact.Types.{TypeStore, no_types}

-- No keyword of the list stands for the end of the file.
abbrev NoneEnds : List (Bytes × TokenKind) → Type 0
NoneEnds [] = Unit
NoneEnds ((str, kind) ∷ ks) = (is_end kind ≡ false) × NoneEnds ks

keywords-NoneEnds : NoneEnds keywords
keywords-NoneEnds = (
  refl,
  (
    refl,
    (
      refl,
      (refl, (refl, (refl, (refl, (refl, (refl, (refl, (refl, (refl, (refl, (refl, tt))))))))))),
    ),
  ),
)

-- The run comes to an end, and a result that it gives has the property.
abbrev pub EndsWith : {A : Type 0} → (A → Type 0) → Outcome A → Type 0
EndsWith R o = Halts o × Ensures R o

module _ ⦃env : Platform⦄ where
  -- The file is read to its end.
  abbrev pub ReadsAll : Nodes × Parser → Type 0
  ReadsAll r = AtEnd (r.1).lex

module _ ⦃env : Platform⦄ (maps : MapLaws env) where
  record Words (ctx : Context) : Type 0 where
    made : maps.Made TokenKind map_ops_symbol ctx.kw_map
    words : NoEndWord ctx

  install_keyword-Words :
      (str : Bytes) (kind : TokenKind) (ctx : Context)
      → is_end kind ≡ false
      → Words ctx
      → Words (install_keyword (str, kind) ctx)
  unfolding install_keyword
  install_keyword-Words str kind ctx h w =
      let x = (env.intern ctx.itn str).1 in
      record {
        made = maps.made_put TokenKind map_ops_symbol ctx.kw_map x kind w.made;
        words = λ y.
            rw
              (maps.get-put TokenKind map_ops_symbol ctx.kw_map y x kind map_ops_symbol-IsLawful
                w.made)
              (pick (y == x) kind (env.map_get TokenKind ctx.kw_map y) h (w.words y));
      }

  install_keywords-Words :
      (ks : List (Bytes × TokenKind)) (ctx : Context)
      → NoneEnds ks
      → Words ctx
      → Words (install_keywords ks ctx)
  unfolding install_keywords
  install_keywords-Words [] ctx h w = w
  install_keywords-Words ((str, kind) ∷ ks) ctx (h, hs) w =
      install_keywords-Words ks (install_keyword (str, kind) ctx) hs
        (install_keyword-Words str kind ctx h w)

  context_init-NoEndWord : (arena : TypeStore) → NoEndWord (context_init arena)
  unfolding context_init
  context_init-NoEndWord arena =
      (install_keywords-Words keywords _ keywords-NoneEnds (record {
        made = maps.made_init TokenKind map_ops_symbol;
        words = λ x. rw (maps.get-init TokenKind map_ops_symbol x) tt;
      })).words

  module _ (chars : CharLaws env) where
    next_token-Sober : (fuel : ℕ) (p : Parser) → NoEndWord p.ctx → Ensures Sober (next_token fuel p)
    unfolding next_token
    next_token-Sober zero p h = tt
    next_token-Sober (suc fuel) p h =
        let (token, ctx, lex) = lexer_next p.ctx p.lex in
        let p' = record p { ctx = ctx; lex = lex; curr = token } in
        let words = lexer_next-NoEndWord p.ctx p.lex h in
        elim (Bool-cases lex.cut_off) [
          | inl off ↦ rw off tt
          | inr on ↦ rw on (elim (Bool-cases (same_kind token.kind error)) [
            | inl e ↦ rw e (next_token-Sober fuel p' words)
            | inr e ↦ rw e (record {
              words = words;
              end_here = λ is_eof. lexer_next-AtEnd p.ctx p.lex h is_eof;
            })
          ])
        ]

    taken :
        (o : Outcome Parser)
        → Ensures Sober o
        → Ensures Sober
            (elim (elim o as (λ _. Outcome (Unit {0} × Parser)) [
              | ok p' ↦ ok (tt, p')
              | fault ↦ fault
              | out_of_fuel ↦ out_of_fuel
            ]) [ ok (_, p') ↦ ok p' | fault ↦ fault | out_of_fuel ↦ out_of_fuel ])
    taken (ok p) h = h
    taken fault h = tt
    taken out_of_fuel h = tt

    parser_init-Sober :
        (old : Token) (ctx : Context) (lex : Lexer)
        → NoEndWord ctx
        → Ensures Sober (parser_init old ctx lex)
    unfolding parser_init advance_token
    parser_init-Sober old ctx lex h = taken _ (next_token-Sober (fuel_of lex) fresh h)
      where
        fresh : Parser
        fresh = record {
          ctx = ctx;
          lex = lex;
          sema = sema_init;
          curr = old;
          prev = old;
          panic_mode = false;
        }

    parsed_all : (o : Outcome (Nodes × Parser)) → After (λ q. AtEnd q.lex) o → Ensures ReadsAll o
    parsed_all (ok r) h = h
    parsed_all fault h = tt
    parsed_all out_of_fuel h = tt

    -- Where letters count as alphanumeric, the byte 0 is in no class and maps hold what was put in:
    -- with the tables of `context_init` in place, on a file of whatever source manager that
    -- `lexer_init` opens, and with the fuel of the driver or more, a parse from `parser_init` on
    -- comes to an end, no loop of the lexer being cut off, and if it ends with a result it has read
    -- the file to its end.
    pub parser_parse-ReadsAll :
        (f : ℕ) (old : Token) (mgr : env.SrcManager) (file_id : ℕ) (lex : Lexer)
        → lexer_init (record (context_init no_types) { mgr = mgr }) file_id ≡ some lex
        → parse_fuel (length lex.content) ≤ f
        → EndsWith ReadsAll
            (parser_init old (record (context_init no_types) { mgr = mgr }) lex >>= parser_parse f)
    parser_parse-ReadsAll f old mgr file_id lex opened enough =
        let ctx = record (context_init no_types) { mgr = mgr } in
        (
          parser_init-Halts chars f old ctx lex context_init-WellFormed
              (lexer_init-running ctx file_id lex opened) enough,
          Ensures-bind Sober ReadsAll (parser_init old ctx lex) (parser_parse f)
              (parser_init-Sober old ctx lex (context_init-NoEndWord no_types))
              λ p h. parsed_all (parser_parse f p) (parser_parse-ReadAll chars f p h),
        )
