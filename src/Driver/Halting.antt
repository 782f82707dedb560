-- ===== src/Driver/Halting.antt =====
-- Every run of the program comes to an end.
use cact.Prelude.{
  ℕ, ◌+◌, ◌≤◌, ◌≡◌, refl, sym, ap, inl, inr, false, Option, none, some, List, [], ◌∷◌, arith,
  Bool-cases, length, Bytes,
}
use cact.Ast.{Node, null, indeterminate, Nodes, no_nodes, node_then}
use cact.Context.{Context, install_keyword, install_keywords, context_init}
use cact.Driver.{
  unreadable, parse_fuel, Arguments, help, input, read_arguments, node_index, node_lines, Compiled,
  report, compile_source, run_compile, main_with, main,
}
use cact.Lexer.{Lexer, lexer_init}
use cact.Outcome.{Outcome, fault, out_of_fuel, ok, ◌>>=◌, Halts, Halts-bind}
use cact.Parser.Halting.{weight, left, done, Ends}
use cact.Parser.Halting.Steps.{advance_token-Ends}
use cact.Parser.Halting.Whole.{parser_parse-Ends}
use cact.Parser.Monad.{Parser}
use cact.Parser.Tokens.{advance_token}
use cact.Parser.TopLevel.{parser_init, parser_parse}
use cact.Platform.{SrcFile, Platform}
use cact.Platform.Laws.{CharLaws}
use cact.Sema.{sema_init}
use cact.Token.{TokenKind, eof, same_kind, keywords}
use cact.Token.Value.{Token}
use cact.Types.{TypeStore, no_types}
use cact.Types.Ranked.{Ranked}
use cact.Types.Ranked.Kept.{WellFormed, Follows-refl, types_init-WellFormed}

-- An arena with nothing in it.
empty-Ranked : Ranked []
empty-Ranked a = tt

module _ ⦃env : Platform⦄ where
  install_keywords-types :
      (ks : List (Bytes × TokenKind)) (ctx : Context) → (install_keywords ks ctx).types ≡ ctx.types
  unfolding install_keywords install_keyword
  install_keywords-types [] ctx = refl
  install_keywords-types (k ∷ ks) ctx = install_keywords-types ks (install_keyword k ctx)

  pub context_init-WellFormed : WellFormed (context_init no_types).types
  unfolding context_init
  context_init-WellFormed =
      rw (install_keywords-types keywords _) (types_init-WellFormed no_types empty-Ranked)

  pub lexer_init-running :
      (ctx : Context) (file_id : ℕ) (l : Lexer)
      → lexer_init ctx file_id ≡ some l
      → l.cut_off ≡ false
  unfolding lexer_init
  lexer_init-running ctx file_id l = go (env.srcmanager_get_file ctx.mgr file_id)
    where
      go :
          (o : Option SrcFile)
          → (elim o as (λ _. Option Lexer) [
            | none ↦ none
            | some file ↦
                some (record {
                  file_id = file_id;
                  content = file.content;
                  cursor = 0;
                  cut_off = false;
                })
          ])
            ≡ some l
          → l.cut_off ≡ false
      go none e = cc
      go (some file) e =
          let same : record {
            file_id = file_id;
            content = file.content;
            cursor = 0;
            cut_off = false;
          }
              ≡ l =
            cc e in
          ap (λ m. m.cut_off) (sym same)

  node_index-Halts : (x : Node) → Halts (node_index x)
  node_index-Halts null = tt
  node_index-Halts indeterminate = tt
  node_index-Halts _ = tt

  node_lines-Halts : (ns : Nodes) → Halts (node_lines ns)
  unfolding node_lines
  node_lines-Halts no_nodes = tt
  node_lines-Halts (node_then x ns) =
      Halts-bind (node_index x) _ (node_index-Halts x)
        λ k _. Halts-bind (node_lines ns) _ (node_lines-Halts ns) λ rest _. tt

  report-Halts :
      (filepath : Bytes) (globals : Nodes) (ctx : Context) → Halts (report filepath globals ctx)
  unfolding report
  report-Halts filepath globals ctx = elim (Bool-cases ctx.had_error) [
    | inl e ↦ rw e tt
    | inr e ↦ rw e (Halts-bind (node_lines globals) _ (node_lines-Halts globals) λ lines _. tt)
  ]

module _ ⦃env : Platform⦄ (laws : CharLaws env) where
  -- A parser at the start of a file of `n` bytes.
  abbrev Started : ℕ → Outcome Parser → Type 0
  Started n (ok p) = (left p ≤ n + 1) × WellFormed p.ctx.types × (p.lex.cut_off ≡ false)
  Started n fault = Unit
  Started n out_of_fuel = ⊥

  weight-le : (k : TokenKind) → weight k ≤ 1
  weight-le k = elim (Bool-cases (same_kind k eof)) [
    | inl e ↦ rw e (omega arith)
    | inr e ↦ rw e (omega arith)
  ]

  parser_init-Started :
      (old : Token) (ctx : Context) (lex : Lexer)
      → WellFormed ctx.types
      → lex.cut_off ≡ false
      → Started (length lex.content) (parser_init old ctx lex)
  unfolding parser_init
  parser_init-Started old ctx lex ready on = go (advance_token fresh) (
      advance_token-Ends laws (left fresh) ctx.types 0 fresh
        (record { room = omega arith; follows = Follows-refl ctx.types ready; running = on }))
    where
      fresh : Parser
      fresh = record {
        ctx = ctx;
        lex = lex;
        sema = sema_init;
        curr = old;
        prev = old;
        panic_mode = false;
      }

      go :
          (o : Outcome (Unit {0} × Parser))
          → Ends (left fresh) ctx.types 0 o
          → Started
              (length lex.content)
              (elim o [ ok (_, p') ↦ ok p' | fault ↦ fault | out_of_fuel ↦ out_of_fuel ])
      go (ok (u, p)) (done v) =
          (omega (arith, v.room, weight-le old.kind), v.follows.well_formed, v.running)
      go fault v = tt
      go out_of_fuel v = elim v [ ]

  Started-Halts :
      {B : Type 0} (n : ℕ) (o : Outcome Parser) (k : Parser → Outcome B)
      → Started n o
      → ((p : Parser)
          → left p ≤ n + 1
          → WellFormed p.ctx.types
          → p.lex.cut_off ≡ false
          → Halts (k p))
      → Halts (o >>= k)
  Started-Halts n (ok p) k (h, ready, on) hk = hk p h ready on
  Started-Halts n fault k h hk = tt
  Started-Halts n out_of_fuel k h hk = absurd h

  Done-Halts : {n : ℕ} {s : TypeStore} (o : Outcome (Nodes × Parser)) → Ends n s 0 o → Halts o
  Done-Halts (ok r) h = tt
  Done-Halts fault h = tt
  Done-Halts out_of_fuel h = elim h [ ]

  parsed-Halts :
      {B : Type 0} {n : ℕ} {s : TypeStore} (o : Outcome (Nodes × Parser))
      (k : Nodes × Parser → Outcome B)
      → Ends n s 0 o
      → ((r : Nodes × Parser) → Halts (k r))
      → Halts (o >>= k)
  parsed-Halts (ok r) k h hk = hk r
  parsed-Halts fault k h hk = tt
  parsed-Halts out_of_fuel k h hk = elim h [ ]

  opened-Halts :
      {B : Type 0} (o : Option Lexer) (k : Lexer → Outcome B)
      → ((l : Lexer) → o ≡ some l → Halts (k l))
      → Halts ((elim o as (λ _. Outcome Lexer) [ none ↦ fault | some l ↦ ok l ]) >>= k)
  opened-Halts none k h = tt
  opened-Halts (some l) k h = h l refl

  -- The parser from its start on, in a well-formed arena.
  pub parser_init-Halts :
      (f : ℕ) (old : Token) (ctx : Context) (lex : Lexer)
      → WellFormed ctx.types
      → lex.cut_off ≡ false
      → parse_fuel (length lex.content) ≤ f
      → Halts (parser_init old ctx lex >>= parser_parse f)
  parser_init-Halts f old ctx lex ready on enough =
      Started-Halts (length lex.content) (parser_init old ctx lex) (parser_parse f)
        (parser_init-Started old ctx lex ready on)
        λ p room fine on'.
          Done-Halts (parser_parse f p)
            (parser_parse-Ends laws f p fine on' (omega (arith, room, enough)))

  compile_source-Halts :
      (old : Token) (ctx : Context) (filepath content : Bytes)
      → WellFormed ctx.types
      → Halts (compile_source old ctx filepath content)
  unfolding compile_source
  compile_source-Halts old ctx₀ filepath content ready =
      let added = env.srcmanager_add ctx₀.mgr filepath content in
      let ctx = record ctx₀ { mgr = added.0 } in
      opened-Halts (lexer_init ctx added.1) _ λ lex opened.
        Started-Halts (length lex.content) (parser_init old ctx lex) _
          (parser_init-Started old ctx lex ready (lexer_init-running ctx added.1 lex opened))
          λ p room fine on.
            parsed-Halts (parser_parse (parse_fuel (length lex.content)) p) _
              (parser_parse-Ends laws (parse_fuel (length lex.content)) p fine on
                (omega (arith, room)))
              λ r. report-Halts filepath r.0 (r.1).ctx

  run_compile-Halts :
      (files : Bytes → Option Bytes) (old : Token) (ctx : Context) (filepath : Bytes)
      → WellFormed ctx.types
      → Halts (run_compile files old ctx filepath)
  unfolding run_compile
  run_compile-Halts files old ctx filepath ready = go (files filepath)
    where
      go :
          (o : Option Bytes)
          → Halts (elim o as (λ _. Outcome Compiled) [
            | none ↦ ok (record { success = false; output = unreadable filepath ∷ []; final = ctx })
            | some content ↦ compile_source old ctx filepath content
          ])
      go none = tt
      go (some content) = compile_source-Halts old ctx filepath content ready

  main_with-Halts :
      (files : Bytes → Option Bytes) (old : Token) (args : Arguments)
      → Halts (main_with files old args)
  unfolding main_with
  main_with-Halts files old help = tt
  main_with-Halts files old (input none) = tt
  main_with-Halts files old (input (some file)) =
      Halts-bind (run_compile files old (context_init no_types) file) _
        (run_compile-Halts files old (context_init no_types) file context_init-WellFormed) λ c _. tt

  -- On a platform where letters count as alphanumeric and the byte 0 is in no class, every run of the
  -- program comes to an end, whatever the arguments and the files: neither the loops of the lexer
  -- nor those and the recursion of the parser and of the comparison of types run out of fuel.
  pub main-Halts :
      (files : Bytes → Option Bytes) (old : Token) (args : List Bytes) → Halts (main files old args)
  unfolding main
  main-Halts files old [] = tt
  main-Halts files old (arg ∷ args) = main_with-Halts files old (read_arguments (arg ∷ args) none)
