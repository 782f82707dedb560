-- ===== src/Driver/Status.antt =====
-- The exit status of `main` against the diagnostics written.
use cact.Prelude.{
  ℕ, ◌≡◌, refl, sym, inl, inr, Bool, false, Option, none, some, List, [], ◌∷◌, if◌then◌else◌,
  Bool-cases, length, Bytes,
}
use cact.Ascii.{stale}
use cact.Ast.{Nodes}
use cact.Context.{Context, install_keyword, install_keywords, context_init, context_deinit}
use cact.Context.Errors.{SpeaksOnce}
use cact.Driver.{
  parse_fuel, input, read_arguments, node_lines, Compiled, report, compile_source, run_compile,
  main_with, main,
}
use cact.Lexer.{Lexer, lexer_init}
use cact.Outcome.{Outcome, fault, out_of_fuel, ok, Ensures, Ensures-bind, Ensures-all}
use cact.Parser.Errors.{KeepsSpeaking, parser_parse-KeepsSpeaking, advance_token-KeepsSpeaking}
use cact.Parser.Monad.{Parser}
use cact.Parser.Relation.{After}
use cact.Parser.TopLevel.{parser_init, parser_parse}
use cact.Platform.{Platform}
use cact.Sema.{sema_init}
use cact.Token.{TokenKind, keywords}
use cact.Token.Value.{Token}
use cact.Types.{TypeStore, no_types}

module _ ⦃env : Platform⦄ where
  install_keywords-SpeaksOnce :
      (ks : List (Bytes × TokenKind)) (ctx : Context)
      → SpeaksOnce ctx
      → SpeaksOnce (install_keywords ks ctx)
  unfolding install_keywords install_keyword
  install_keywords-SpeaksOnce [] ctx h = h
  install_keywords-SpeaksOnce ((str, kind) ∷ ks) ctx h =
      install_keywords-SpeaksOnce ks _
        (record { flags_agree = h.flags_agree; one_at_most = h.one_at_most })

  context_init-SpeaksOnce : (arena : TypeStore) → SpeaksOnce (context_init arena)
  unfolding context_init
  context_init-SpeaksOnce arena =
      install_keywords-SpeaksOnce keywords _ (record { flags_agree = refl; one_at_most = refl })

  -- Of a parser that spoke once at most.
  abbrev Speaks : Parser → Type 0
  Speaks p = SpeaksOnce p.ctx

  parser_init-Speaks :
      (stale : Token) (ctx : Context) (lex : Lexer)
      → SpeaksOnce ctx
      → Ensures Speaks (parser_init stale ctx lex)
  unfolding parser_init
  parser_init-Speaks stale ctx lex h = started _ (advance_token-KeepsSpeaking fresh)
    where
      fresh : Parser
      fresh = record {
        ctx = ctx;
        lex = lex;
        sema = sema_init;
        curr = stale;
        prev = stale;
        panic_mode = false;
      }

      started :
          (o : Outcome (Unit × Parser))
          → After (KeepsSpeaking fresh) o
          → Ensures Speaks
              (elim o [ ok (_, p') ↦ ok p' | fault ↦ fault | out_of_fuel ↦ out_of_fuel ])
      started (ok (u, p)) k = k h
      started fault k = tt
      started out_of_fuel k = tt

  -- As many diagnostics as the status says.
  abbrev Counted : Compiled → Type 0
  Counted c = length c.final.stderr ≡ (if c.success then 0 else 1)

  report-Counted :
      (filepath : Bytes) (globals : Nodes) (ctx : Context)
      → SpeaksOnce ctx
      → Ensures Counted (report filepath globals ctx)
  unfolding report
  report-Counted filepath globals ctx h = elim (Bool-cases ctx.had_error) [
    | inl e ↦ rw e (rw e at h.one_at_most)
    | inr e ↦ rw e (Ensures-all Counted (node_lines globals) _ (λ lines. rw e at h.one_at_most))
  ]

  parsed_Speaks :
      (p : Parser) (o : Outcome (Nodes × Parser))
      → Speaks p
      → After (KeepsSpeaking p) o
      → Ensures (λ r. Speaks r.1) o
  parsed_Speaks p (ok (ns, q)) h k = k h
  parsed_Speaks p fault h k = tt
  parsed_Speaks p out_of_fuel h k = tt

  compile_source-Counted :
      (stale : Token) (ctx : Context) (filepath content : Bytes)
      → SpeaksOnce ctx
      → Ensures Counted (compile_source stale ctx filepath content)
  unfolding compile_source
  compile_source-Counted stale ctx₀ filepath content h =
      let added = env.srcmanager_add ctx₀.mgr filepath content in
      let ctx = record ctx₀ { mgr = added.0 } in
      Ensures-all Counted (elim (lexer_init ctx added.1) [ none ↦ fault | some l ↦ ok l ]) _
        λ lex.
          Ensures-bind Speaks Counted (parser_init stale ctx lex) _
            (parser_init-Speaks stale ctx lex
              (record { flags_agree = h.flags_agree; one_at_most = h.one_at_most }))
            λ p k.
              let fuel = parse_fuel (length lex.content) in
              Ensures-bind (λ r. Speaks r.1) Counted (parser_parse fuel p) _
                (parsed_Speaks p (parser_parse fuel p) k (parser_parse-KeepsSpeaking fuel p))
                λ r s. report-Counted filepath r.0 (r.1).ctx s

  finish :
      (c : Compiled)
      → Counted c
      → length (context_deinit c.final).stderr ≡ (if c.success then 0 else 1)
  unfolding context_deinit
  finish c h = h

  run_compile-compile_source :
      (files : Bytes → Option Bytes) (stale : Token) (ctx : Context) (filepath : Bytes)
      {content : Bytes}
      → files filepath ≡ some content
      → run_compile files stale ctx filepath ≡ compile_source stale ctx filepath content
  unfolding run_compile
  run_compile-compile_source files stale ctx filepath readable = rw (readable, run_compile)

  status_of : (b : Bool) {n : ℕ} → n ≡ (if b then 0 else 1) → (if b then 0 else 1) ≡ n
  status_of b e = sym e

  -- If the arguments name an input file and it can be read, the exit status of a run that ends is
  -- the number of diagnostics written: 0 without any, and 1 with exactly one.
  pub status-eq-diagnostics :
      (files : Bytes → Option Bytes) (stale : Token) (arg : Bytes) (args : List Bytes)
      {input_file content : Bytes}
      → read_arguments (arg ∷ args) none ≡ input (some input_file)
      → files input_file ≡ some content
      → Ensures (λ e. e.status ≡ length e.diagnostics) (main files stale (arg ∷ args))
  unfolding main main_with
  status-eq-diagnostics files stale arg args {input_file} {content} named readable =
      let ctx = context_init no_types in
      rw (named, main_with)
        (Ensures-bind Counted _ (run_compile files stale ctx input_file) _
          (rw (run_compile-compile_source files stale ctx input_file readable) (
            compile_source-Counted stale ctx input_file content (context_init-SpeaksOnce no_types)))
          λ c h. status_of c.success (finish c h))
