-- ===== src/Parser/Relation/Steps.antt =====
-- The parser's helpers keep every stable relation.
use cact.Prelude.{ℕ, zero, suc, String, inl, inr, Bool, true, false, some, Bool-cases}
use cact.Context.{text, Context}
use cact.Context.Errors.{Reported, silent, spoken}
use cact.Lexer.{fuel_of}
use cact.Lexer.Next.{lexer_next}
use cact.Outcome.{Outcome, fault, out_of_fuel, ok, Ensures}
use cact.Parser.Monad.{Parser, Parse, state, modify}
use cact.Parser.Relation.{Stable, After, Keeps, After-mono, Keeps->>=, Keeps-pure, Keeps-if}
use cact.Parser.Tokens.{
  mem_kind, sync_kinds, next_token, advance_token, parser_error_at, parser_error, check_kind,
  consume, match_kind, on_match, sync_loop, synchronize, new_node, curr_type, prev_name, the_types,
  set_types, define_var, checked, make_array,
}
use cact.Platform.{Platform}
use cact.Token.{TokenKind, eof, error, semicolon, same_kind}
use cact.Token.Value.{Token}
use cact.Types.{TypePtr, TypeStore, type_array_of}

module _ ⦃env : Platform⦄ {R : Parser → Parser → Type 0} (st : Stable R) where
  abbrev AfterToken : Parser → Outcome Parser → Type 0
  AfterToken p (ok q) = R p q
  AfterToken p fault = Unit
  AfterToken p out_of_fuel = Unit

  next_token-AfterToken : (fuel : ℕ) (p q : Parser) → R p q → AfterToken p (next_token fuel q)
  unfolding next_token
  next_token-AfterToken zero p q h = tt
  next_token-AfterToken (suc fuel) p q h = elim (Bool-cases (lexer_next q.ctx q.lex).2.cut_off) [
    | inl off ↦ rw off tt
    | inr on ↦ rw on (elim (Bool-cases (same_kind (lexer_next q.ctx q.lex).0.kind error)) [
      | inl e ↦ rw e (next_token-AfterToken fuel p _ (st.chain _ _ _ h (st.reads q)))
      | inr e ↦ rw e (st.chain _ _ _ h (st.reads q))
    ])
  ]

  token_taken :
      (p : Parser) (o : Outcome Parser)
      → AfterToken p o
      → After (R p) (elim o [ ok p' ↦ ok (tt, p') | fault ↦ fault | out_of_fuel ↦ out_of_fuel ])
  token_taken p (ok q) h = h
  token_taken p fault h = tt
  token_taken p out_of_fuel h = tt

  pub advance_token-Keeps : Keeps R advance_token
  unfolding advance_token
  advance_token-Keeps p =
      token_taken p (next_token (fuel_of p.lex) (record p { prev = p.curr }))
        (next_token-AfterToken (fuel_of p.lex) p _ (st.shifts p))

  pub parser_error_at-Keeps : (token : Token) (msg : String) → Keeps R (parser_error_at token msg)
  unfolding parser_error_at
  parser_error_at-Keeps token msg p = elim (Bool-cases p.panic_mode) [
    | inl e ↦ simp e (st.same p)
    | inr e ↦ simp e (
        st.chain _ _ _ (st.panics p true)
          (st.reports (record p { panic_mode = true }) (some token.span_start) (text msg)))
  ]

  pub parser_error-Keeps : (msg : String) → Keeps R (parser_error msg)
  unfolding parser_error
  parser_error-Keeps msg p = parser_error_at-Keeps p.curr msg p

  pub consume-Keeps : (kind : TokenKind) (msg : String) → Keeps R (consume kind msg)
  unfolding consume
  consume-Keeps kind msg p = elim (Bool-cases (same_kind p.curr.kind kind)) [
    | inl e ↦ rw e (advance_token-Keeps p)
    | inr e ↦ rw e (parser_error-Keeps msg p)
  ]

  pub match_kind-Keeps : (kind : TokenKind) → Keeps R (match_kind kind)
  unfolding match_kind
  match_kind-Keeps kind p = elim (Bool-cases (same_kind p.curr.kind kind)) [
    | inl e ↦ rw e (Keeps->>= st advance_token _ advance_token-Keeps (λ _. Keeps-pure st true) p)
    | inr e ↦ rw e (st.same p)
  ]

  pub on_match-Keeps :
      {A : Type 0} (kind : TokenKind) (m n : Parse A)
      → Keeps R m
      → Keeps R n
      → Keeps R (on_match kind m n)
  on_match-Keeps kind m n hm hn =
      Keeps->>= st _ _ (match_kind-Keeps kind) (λ b. Keeps-if st b m n hm hn)

  sync_loop-Keeps : (fuel : ℕ) → Keeps R (sync_loop fuel)
  unfolding sync_loop
  sync_loop-Keeps zero p = tt
  sync_loop-Keeps (suc fuel) p = elim (Bool-cases (same_kind p.curr.kind eof)) [
    | inl e ↦ rw e (st.same p)
    | inr e ↦ rw e (elim (Bool-cases (same_kind p.prev.kind semicolon)) [
      | inl e' ↦ rw e' (st.same p)
      | inr e' ↦ rw e' (elim (Bool-cases (mem_kind p.curr.kind sync_kinds)) [
        | inl s ↦ rw s (st.same p)
        | inr s ↦ rw s (Keeps->>= st _ _ advance_token-Keeps (λ _. sync_loop-Keeps fuel) p)
      ])
    ])
  ]

  pub synchronize-Keeps : Keeps R synchronize
  unfolding synchronize
  synchronize-Keeps p =
      After-mono _ _ (sync_loop (suc (fuel_of p.lex)) (record p { panic_mode = false }))
        (λ q h. st.chain _ _ _ (st.panics p false) h)
        (sync_loop-Keeps (suc (fuel_of p.lex)) (record p { panic_mode = false }))

  pub define_var-Keeps : (x : ℕ) (ty : TypePtr) (c : Bool) → Keeps R (define_var x ty c)
  unfolding define_var
  define_var-Keeps x ty c p = st.defines p x ty c

  pub set_types-Keeps : (s : TypeStore) → Keeps R (set_types s)
  set_types-Keeps s p = st.allocates p s

  array_made :
      (p : Parser) (o : Outcome (TypePtr × TypeStore))
      → After (R p) (elim o [
        | ok (ty, s) ↦ ok (ty, record p { ctx = record (p.ctx) { types = s } })
        | fault ↦ fault
        | out_of_fuel ↦ out_of_fuel
      ])
  array_made p (ok (ty, s)) = st.allocates p s
  array_made p fault = tt
  array_made p out_of_fuel = tt

  pub make_array-Keeps : (base : TypePtr) (len : ℕ) → Keeps R (make_array base len)
  unfolding make_array
  make_array-Keeps base len p = array_made p (type_array_of p.ctx.types base len)

  Reported-stable : (p : Parser) (ctx : Context) → Reported p.ctx ctx → R p (record p { ctx = ctx })
  Reported-stable p ctx silent = st.same p
  Reported-stable p ctx (spoken {ctx'} tok msg r) =
      st.chain _ _ _ (Reported-stable p ctx' r) (st.reports (record p { ctx = ctx' }) tok msg)

  pub modify-Keeps :
      (f : Parser → Context)
      → ((p : Parser) → Reported p.ctx (f p))
      → Keeps R (modify λ p. record p { ctx = f p })
  modify-Keeps f h p = Reported-stable p (f p) (h p)

  check_made :
      (p : Parser) (o : Outcome (TypePtr × Context))
      → Ensures (λ r. Reported p.ctx r.1) o
      → After (R p) (elim o [
        | ok (ty, ctx) ↦ ok (ty, record p { ctx = ctx })
        | fault ↦ fault
        | out_of_fuel ↦ out_of_fuel
      ])
  check_made p (ok (ty, ctx)) h = Reported-stable p ctx h
  check_made p fault h = tt
  check_made p out_of_fuel h = tt

  pub checked-Keeps :
      (check : Context → Outcome (TypePtr × Context))
      → ((ctx : Context) → Ensures (λ r. Reported ctx r.1) (check ctx))
      → Keeps R (checked check)
  checked-Keeps check h p = check_made p (check p.ctx) (h p.ctx)

  -- The pieces that only read.
  pub state-Keeps : Keeps R state
  state-Keeps = st.same

  pub new_node-Keeps : Keeps R new_node
  new_node-Keeps = st.same

  pub the_types-Keeps : Keeps R the_types
  the_types-Keeps = st.same

  pub check_kind-Keeps : (kind : TokenKind) → Keeps R (check_kind kind)
  check_kind-Keeps kind = st.same

  pub prev_name-Keeps : Keeps R prev_name
  prev_name-Keeps = st.same

  pub curr_type-Keeps : Keeps R curr_type
  curr_type-Keeps = st.same
