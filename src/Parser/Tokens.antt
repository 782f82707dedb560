-- ===== src/Parser/Tokens.antt =====
-- src/parser.c, part 1: the token window, errors, recovery, nodes and type names.
use cact.Prelude.{
  ℕ, zero, suc, String, Bool, true, false, not, ◌||◌, Option, none, some, List, [], ◌∷◌,
  if◌then◌else◌,
}
use cact.Ast.{SemaSymbol, Base}
use cact.Context.{text, Context, ctx_error}
use cact.Lexer.{fuel_of}
use cact.Lexer.Next.{lexer_next}
use cact.Outcome.{Outcome, fault, out_of_fuel, ok}
use cact.Parser.Monad.{Parser, Parse, ◌>>=◌, ◌>>◌, pure, run, modify}
use cact.Platform.{Platform}
use cact.Sema.{sema_define_var}
use cact.Token.{
  TokenKind, eof, error, kw_const, kw_int, kw_bool, kw_float, kw_double, kw_void, kw_if, kw_while,
  kw_return, semicolon, same_kind,
}
use cact.Token.Value.{Token, value_name}
use cact.Types.{TypePtr, TypeStore, type_array_of}

-- Where one of several kinds is asked for.
abbrev pub mem_kind : TokenKind → List TokenKind → Bool
mem_kind k [] = false
mem_kind k (x ∷ xs) = same_kind k x || mem_kind k xs

-- The cases of `synchronize`.
abbrev pub sync_kinds : List TokenKind
sync_kinds =
    kw_if ∷ kw_while ∷ kw_return ∷ kw_int ∷ kw_float ∷ kw_double ∷ kw_bool ∷ kw_void ∷ kw_const ∷ []

module _ ⦃env : Platform⦄ where
  -- `do curr = lexer_next(lex); while (curr is ERROR)` with fuel.
  -- `cut_off` is no test of the program's: a loop of the lexer that ran out of fuel ends the run.
  unfoldable pub next_token : ℕ → Parser → Outcome Parser
  next_token zero p = out_of_fuel
  next_token (suc fuel) p =
      let (token, ctx, lex) = lexer_next p.ctx p.lex in
      let p' = record p { ctx = ctx; lex = lex; curr = token } in
      let rest = next_token fuel p' in
      if lex.cut_off then out_of_fuel else if same_kind token.kind error then rest else ok p'

  -- An error token takes a byte at least, so there is a round for each byte left and one more.
  unfoldable pub advance_token : Parse (Unit {0})
  unfolding next_token
  advance_token p = elim (next_token (fuel_of p.lex) (record p { prev = p.curr })) [
    | ok p' ↦ ok (tt, p')
    | fault ↦ fault
    | out_of_fuel ↦ out_of_fuel
  ]

  unfoldable pub parser_error_at : Token → String → Parse (Unit {0})
  parser_error_at token msg p = ok (
    tt,
    if p.panic_mode then p else record p {
      panic_mode = true;
      ctx = ctx_error p.ctx (some token.span_start) (text msg);
    },
  )

  unfoldable pub parser_error : String → Parse (Unit {0})
  unfolding parser_error_at
  parser_error msg p = parser_error_at p.curr msg p

  abbrev pub check_kind : TokenKind → Parse Bool
  check_kind kind p = ok (same_kind p.curr.kind kind, p)

  unfoldable pub consume : TokenKind → String → Parse (Unit {0})
  unfolding advance_token parser_error
  consume kind msg p = if same_kind p.curr.kind kind then advance_token p else parser_error msg p

  unfoldable pub match_kind : TokenKind → Parse Bool
  unfolding advance_token
  match_kind kind p =
      if not (same_kind p.curr.kind kind)
      then ok (false, p)
      else (run p do advance_token; pure true)

  -- `if (match(p, kind)) a else b`.
  abbrev pub on_match : {A : Type 0} → TokenKind → Parse A → Parse A → Parse A
  on_match kind a b = do matched ← match_kind kind; if matched then a else b

  -- The loop of `synchronize`, with fuel.
  unfoldable pub sync_loop : ℕ → Parse (Unit {0})
  unfolding advance_token
  sync_loop zero p = out_of_fuel
  sync_loop (suc fuel) p =
      if same_kind p.curr.kind eof
      then ok (tt, p)
      else if same_kind p.prev.kind semicolon
      then ok (tt, p)
      else if mem_kind p.curr.kind sync_kinds
      then ok (tt, p)
      else (run p do advance_token; sync_loop fuel)

  unfoldable pub synchronize : Parse (Unit {0})
  unfolding sync_loop
  synchronize p = sync_loop (suc (fuel_of p.lex)) (record p { panic_mode = false })

  -- `new_node` but for the kind: the node's token is the one before the current one.
  abbrev pub new_node : Parse Base
  new_node p = ok (record { tok = p.prev; node_type = none }, p)

  abbrev pub typed : Base → TypePtr → Base
  typed b ty = record b { node_type = ty }

  unfoldable pub token_to_type : TypeStore → TokenKind → TypePtr
  token_to_type s kw_int = s.ty_int
  token_to_type s kw_float = s.ty_float
  token_to_type s kw_double = s.ty_double
  token_to_type s kw_bool = s.ty_bool
  token_to_type s kw_void = s.ty_void
  token_to_type s _ = none

  -- `token_to_type(p->curr.kind)`.
  abbrev pub curr_type : Parse TypePtr
  curr_type p = ok (token_to_type p.ctx.types p.curr.kind, p)

  -- `p->prev.value.name`, and the global types.
  abbrev pub prev_name : Parse ℕ
  prev_name p = ok (value_name p.prev.value, p)

  abbrev pub the_types : Parse TypeStore
  the_types p = ok (p.ctx.types, p)

  abbrev pub set_types : TypeStore → Parse (Unit {0})
  set_types s = modify λ p. record p { ctx = record (p.ctx) { types = s } }

  unfoldable pub define_var : ℕ → TypePtr → Bool → Parse (Option SemaSymbol)
  define_var name ty is_const p =
      let (symbol, ctx, sema) = sema_define_var p.ctx p.sema name ty is_const in
      ok (symbol, record p { ctx = ctx; sema = sema })

  -- A check of sema.c that gives a node its type.
  abbrev pub checked : (Context → Outcome (TypePtr × Context)) → Parse TypePtr
  checked check p = elim (check p.ctx) [
    | ok (ty, ctx) ↦ ok (ty, record p { ctx = ctx })
    | fault ↦ fault
    | out_of_fuel ↦ out_of_fuel
  ]

  -- `type_array_of` in the arena of the parser.
  unfoldable pub make_array : TypePtr → ℕ → Parse TypePtr
  make_array base len p = elim (type_array_of p.ctx.types base len) [
    | ok (ty, s) ↦ ok (ty, record p { ctx = record (p.ctx) { types = s } })
    | fault ↦ fault
    | out_of_fuel ↦ out_of_fuel
  ]
