-- ===== src/Witnesses.antt =====
-- Runs of the model on concrete inputs, and the theorems at concrete inputs.
use cact.Prelude.{
  ℕ, zero, suc, ◌≡◌, refl, sym, ap, ◌∙◌, ◌⊎◌, inl, inr, true, false, not, ◌&&◌, Option, none, some,
  List, [], ◌∷◌, ◌++◌, arith, ◌==◌, if◌then◌else◌, ==_iff, Bool-cases, length, Bytes, codes,
}
use cact.Ascii.{ascii_digit, ascii, stale}
use cact.Ascii.Names.{ascii_names}
use cact.Ast.{nd_return, nd_lt, SemaSymbol, Base, Node, null, int_node, var_node, unary_node}
use cact.Context.{map_ops_symbol, text, Context, context_init, ctx_error}
use cact.Context.Keywords.{KnowsAll, context_init-KnowsAll}
use cact.Driver.{same_text, help, input, read_arguments, main}
use cact.Driver.CommandLine.{AsksHelp, operands, last_or, read_arguments-last}
use cact.Driver.Halting.{main-Halts}
use cact.Driver.Reading.{EndsWith, ReadsAll, parser_parse-ReadsAll}
use cact.Driver.Status.{status-eq-diagnostics}
use cact.Lexer.{Lexer, lexer_init, peek, advance, advance_char, skip_while}
use cact.Lexer.Comments.{Ahead}
use cact.Lexer.Cursor.{Munched, skip_while-Munched}
use cact.Lexer.Grammar.{Trivia}
use cact.Lexer.Grammar.Whole.{skip_whitespace-Trivia}
use cact.Lexer.Next.{scan_punct, scan_token, lexer_next}
use cact.Lexer.Numbers.{NumberEnds, scan_number-integer}
use cact.Lexer.Printing.{print, Lexes, lexer_next-print}
use cact.Lexer.Progress.Next.{Advances, lexer_next-Advances}
use cact.Lexer.Scan.{make_token, scan_number}
use cact.Lexer.Skipping.{Clear}
use cact.Lexer.Trivia.{skip_round, skip_rounds, skip_whitespace}
use cact.Lexer.Words.{further_by}
use cact.Outcome.{fault, ok, ◌>>=◌, Ensures, Halts}
use cact.Parser.Crashes.{parse_operators-missing}
use cact.Parser.Crashes.Return.{void_checked, parse_return-empty}
use cact.Parser.Expr.{get_prec, parse_operators}
use cact.Parser.Halting.{left, Ends}
use cact.Parser.Halting.Whole.{parser_parse-Ends}
use cact.Parser.Monad.{Parser}
use cact.Parser.Relation.{After}
use cact.Parser.Scopes.{SameOuter, parser_parse-SameOuter}
use cact.Parser.Stmt.{parse_return}
use cact.Parser.Tokens.{advance_token, typed}
use cact.Parser.TopLevel.{parser_init, parser_parse}
use cact.Platform.{MapOps}
use cact.Platform.Laws.{IsLawful, MapLaws, CharLaws, AsciiLaws}
use cact.Sema.{
  Scope, Sema, sema_define_var, sema_lookup, sema_analyze_binary, sema_analyze_assign,
  sema_analyze_return,
}
use cact.Sema.Operators.{operation_shape, Answers, sema_analyze_binary-Answers}
use cact.Sema.Returns.{
  Judges, is_const_variable, sema_analyze_assign-Judges, sema_analyze_return-Judges,
}
use cact.Sema.Scopes.{symbol_for, sema_define_var-lookup, sema_define_var-redefinition}
use cact.Token.{
  TokenKind, eof, lit_int, kw_int, kw_while, kw_true, plus, slash, neq, l_paren, assign, semicolon,
  log_and, tokenkind_to_cstr, keywords,
}
use cact.Token.Value.{no_value, as_int}
use cact.Types.{
  TypePtr, array, func, TypeStore, no_types, deref, types_init, type_array_of, type_func_new,
  push_param, type_eq,
}
use cact.Types.Equality.{type_eq-same_shape}
use cact.Types.Ranked.{Ranked, type_eq-Halts}
use cact.Types.Ranked.Kept.{WellFormed, types_init-WellFormed}
use cact.Types.Ranked.Push.{Pushed, push_param-Pushed}
use cact.Types.Shape.{
  int_shape, array_shape, func_shape, no_shapes, shape_then, same_shape, depth, Denotes, ints,
  arrays, funcs, none_left, one_more, IsReady,
}
use cact.Types.Store.{Extends, type_array_of-Denotes, type_func_new-Denotes, types_init-IsReady}

abbrev store : TypeStore
store = types_init no_types

-- `int[3]` and `int(int[3])` beside the global types.
abbrev int_row : TypePtr
int_row = some 5

abbrev row_function : TypePtr
row_function = some 6

abbrev with_row : TypeStore
with_row = record store {
  heap =
      store.heap
      ++ some (array store.ty_int 3 12 4)
        ∷ some (func store.ty_int (int_row ∷ []) 8 8)
        ∷ some (array store.ty_int 3 12 4)
        ∷ [];
}

with_row-IsReady : IsReady with_row
unfolding types_init deref
with_row-IsReady = record {
  void_at = refl;
  bool_at = refl;
  int_at = refl;
  float_at = refl;
  double_at = refl;
}

row-Denotes : Denotes with_row int_row (array_shape int_shape 3)
unfolding types_init deref
row-Denotes = arrays refl (ints refl)

other_row-Denotes : Denotes with_row (some 7) (array_shape int_shape 3)
unfolding types_init deref
other_row-Denotes = arrays refl (ints refl)

row_function-Denotes :
    Denotes with_row row_function
      (func_shape int_shape (shape_then (array_shape int_shape 3) no_shapes))
unfolding types_init deref
row_function-Denotes = funcs refl (ints refl) (one_more row-Denotes none_left)

type_eq-same_shape_example :
    type_eq 5 with_row.heap int_row (some 7)
    ≡ ok (same_shape (array_shape int_shape 3) (array_shape int_shape 3))
unfolding depth
type_eq-same_shape_example =
    type_eq-same_shape with_row-IsReady 5 row-Denotes other_row-Denotes (omega arith)

-- A context whose store is `with_row`.
abbrev row_context : Context
row_context = record {
  types = with_row;
  mgr = [];
  itn = [];
  kw_map = ascii.map_init TokenKind map_ops_symbol;
  had_error = false;
  panic_mode = false;
  stderr = [];
}

abbrev int_base : Base
int_base = record { tok = stale; node_type = store.ty_int }

sema_analyze_binary-Answers_example :
    Answers row_context
      (some 0)
      (operation_shape nd_lt int_shape int_shape)
      (sema_analyze_binary row_context nd_lt int_base (int_node int_base 1) (int_node int_base 2))
unfolding depth
sema_analyze_binary-Answers_example =
    sema_analyze_binary-Answers row_context with_row-IsReady nd_lt int_base (int_node int_base 1)
      (int_node int_base 2) refl refl refl (ints refl) (ints refl) (omega arith)

equals-== : (ops : MapOps) → IsLawful ops → (j k : ℕ) → ops.equals j k ≡ (j == k)
equals-== ops lawful j k = elim (Bool-cases (j == k)) [
  | inl e ↦ (lawful.equals_iff j k).1 ((==_iff j k).0 e) ∙ sym e
  | inr e ↦ elim (Bool-cases (ops.equals j k)) [
    | inl e' ↦ cc (e, (==_iff j k).1 ((lawful.equals_iff j k).0 e'))
    | inr e' ↦ e' ∙ sym e
  ]
]

ascii_maps : MapLaws ascii
ascii_maps = record {
  Made = λ V ops m. m.0 ≡ ops;
  made_init = λ V ops. refl;
  made_put = λ V ops m k v made. made;
  get-init = λ V ops k. refl;
  get-put = λ V ops m j k v lawful made.
      ap (λ b. if b then some v else ascii.map_get V m j)
        (ap (λ o. o.equals j k) made ∙ equals-== ops lawful j k);
}

abbrev global_scope : Scope
global_scope = ascii.map_init SemaSymbol map_ops_symbol

abbrev one_scope : Sema
one_scope = record { scopes = global_scope ∷ []; curr_func_ret = none }

sema_define_var-lookup_example :
    let (symbol, ctx', s') = sema_define_var row_context one_scope 4 store.ty_int false in
    (symbol ≡ some (symbol_for [] 4 store.ty_int false))
    × (ctx' ≡ row_context)
    × ((y : ℕ)
        → sema_lookup s' y
          ≡ (if y == 4 then some (symbol_for [] 4 store.ty_int false) else sema_lookup one_scope y))
unfolding ascii_maps
sema_define_var-lookup_example =
    sema_define_var-lookup ascii_maps row_context one_scope global_scope [] 4 store.ty_int false
      refl refl refl

abbrev used_scope : Scope
used_scope = ascii.map_put SemaSymbol global_scope 4 (symbol_for [] 4 store.ty_int true)

abbrev used_scopes : Sema
used_scopes = record { scopes = used_scope ∷ []; curr_func_ret = none }

sema_define_var-redefinition_example :
    let (symbol, ctx₁, s₁) = sema_define_var row_context used_scopes 4 store.ty_bool false in
    sema_define_var ctx₁ s₁ 4 store.ty_int true
    ≡ (none, ctx_error ctx₁ none (text "Redefinition of symbol in the same scope"), s₁)
unfolding ascii_maps
sema_define_var-redefinition_example =
    sema_define_var-redefinition ascii_maps row_context used_scopes used_scope [] 4 store.ty_bool
      store.ty_int false true refl refl

abbrev one_file : Bytes → Option Bytes
one_file _ = some (codes "int main(){ return 1; }")

status-eq-diagnostics_example :
    Ensures (λ e. e.status ≡ length e.diagnostics) (main one_file stale (codes "a.cact" ∷ []))
unfolding read_arguments same_text
status-eq-diagnostics_example =
    status-eq-diagnostics one_file stale (codes "a.cact") [] {input_file = codes "a.cact"} refl refl

-- The const variable `c`, of type int.
abbrev const_node : Node
const_node = var_node int_base (some (symbol_for [] 4 store.ty_int true))

sema_analyze_assign-Judges_example :
    Judges row_context
      (some 0)
      (not (is_const_variable const_node) && same_shape int_shape int_shape)
      store.ty_int
      (sema_analyze_assign row_context int_base const_node (int_node int_base 2))
unfolding depth
sema_analyze_assign-Judges_example =
    sema_analyze_assign-Judges row_context with_row-IsReady int_base const_node
      (int_node int_base 2) refl refl (ints refl) (ints refl) (omega arith)

abbrev in_int_function : Sema
in_int_function = record one_scope { curr_func_ret = store.ty_int }

sema_analyze_return-Judges_example :
    Judges row_context
      (some 0)
      (same_shape int_shape int_shape)
      row_context.types.ty_void
      (sema_analyze_return row_context in_int_function int_base (int_node int_base 2))
unfolding depth
sema_analyze_return-Judges_example =
    sema_analyze_return-Judges row_context with_row-IsReady in_int_function int_base
      (int_node int_base 2) refl refl (ints refl) (ints refl) (omega arith)

-- At `int`, with ` x;` left to read.
abbrev at_int : Parser
at_int = record {
  ctx = record row_context { mgr = (codes "a", codes " x;") ∷ [] };
  lex = record { file_id = 0; content = codes " x;"; cursor = 0; cut_off = false };
  sema = one_scope;
  curr = record stale { kind = kw_int };
  prev = stale;
  panic_mode = false;
}

parser_parse-SameOuter_example : After (λ q. SameOuter at_int.sema q.sema) (parser_parse 50 at_int)
parser_parse-SameOuter_example = parser_parse-SameOuter 50 at_int

abbrev command_line : List Bytes
command_line = codes "-o" ∷ codes "out" ∷ codes "-O" ∷ []

read_arguments-last_example :
    (AsksHelp command_line × (read_arguments command_line none ≡ help))
    ⊎ ((¬ AsksHelp command_line)
        × (read_arguments command_line none ≡ input (last_or none (operands command_line))))
read_arguments-last_example = read_arguments-last command_line none

types_init-IsReady_example : IsReady (types_init with_row)
types_init-IsReady_example = types_init-IsReady with_row

type_array_of-Denotes_example :
    (p : TypePtr) × (s' : TypeStore) × (type_array_of with_row int_row 2 ≡ ok (p, s'))
    × Denotes s' p (array_shape (array_shape int_shape 3) 2)
    × Extends with_row s'
type_array_of-Denotes_example =
    type_array_of-Denotes with_row int_row 2 with_row-IsReady row-Denotes

type_func_new-Denotes_example :
    Denotes
      ((type_func_new with_row int_row).1)
      ((type_func_new with_row int_row).0)
      (func_shape (array_shape int_shape 3) no_shapes)
    × Extends with_row ((type_func_new with_row int_row).1)
type_func_new-Denotes_example = type_func_new-Denotes with_row int_row with_row-IsReady row-Denotes

-- Behind the first digit of `123;`.
abbrev in_digits : Lexer
in_digits = record { file_id = 0; content = codes "123;"; cursor = 1; cut_off = false }

skip_while-Munched_example : Munched ascii_digit in_digits (skip_while ascii_digit in_digits)
skip_while-Munched_example = skip_while-Munched ascii_digit refl in_digits

-- A blank, a comment of each kind, and a word.
abbrev at_comments : Lexer
at_comments = record {
  file_id = 0;
  content = codes " /* * */// b\n x";
  cursor = 0;
  cut_off = false;
}

skip_whitespace-Trivia_example :
    let r = skip_whitespace at_comments in
    Ahead at_comments r × Trivia at_comments.content at_comments.cursor r.cursor × Clear r
skip_whitespace-Trivia_example = skip_whitespace-Trivia at_comments

ascii_chars : CharLaws ascii
ascii_chars = record {
  alpha_alphanum = λ c h. rw h refl;
  digit_end = refl;
  hex_end = refl;
  alphanum_end = refl;
}

main-Halts_example : Halts (main one_file stale (codes "a.cact" ∷ []))
main-Halts_example = main-Halts ascii_chars one_file stale (codes "a.cact" ∷ [])

-- Before the parse of ` x;` in an arena of the global types.
abbrev fresh_parser : Parser
fresh_parser = record at_int { ctx = record (at_int.ctx) { types = store } }

store-WellFormed : WellFormed store
store-WellFormed = types_init-WellFormed no_types λ a. tt

parser_parse-Ends_example : Ends (left fresh_parser) store 0 (parser_parse 200 fresh_parser)
parser_parse-Ends_example =
    parser_parse-Ends ascii_chars 200 fresh_parser store-WellFormed refl (omega arith)

lexer_next-Advances_example : Advances at_comments (lexer_next row_context at_comments)
lexer_next-Advances_example = lexer_next-Advances ascii_chars row_context at_comments

with_row-Ranked : Ranked with_row.heap
unfolding types_init
with_row-Ranked zero = tt
with_row-Ranked (suc zero) = tt
with_row-Ranked (suc (suc zero)) = tt
with_row-Ranked (suc (suc (suc zero))) = tt
with_row-Ranked (suc (suc (suc (suc zero)))) = tt
with_row-Ranked (suc (suc (suc (suc (suc zero))))) = (omega arith, tt)
with_row-Ranked (suc (suc (suc (suc (suc (suc zero)))))) =
    ((omega arith, tt), ((omega arith, tt), tt))
with_row-Ranked (suc (suc (suc (suc (suc (suc (suc zero))))))) = (omega arith, tt)
with_row-Ranked (suc (suc (suc (suc (suc (suc (suc (suc a)))))))) = tt

type_eq-Halts_example : Halts (type_eq 10 with_row.heap row_function int_row)
unfolding types_init
type_eq-Halts_example =
    type_eq-Halts with_row.heap with_row-Ranked 10 row_function int_row (omega arith)

push_param-Pushed_example : Pushed with_row (push_param with_row row_function store.ty_int)
unfolding types_init
push_param-Pushed_example =
    push_param-Pushed with_row row_function store.ty_int
      (record { ready = with_row-IsReady; ranked = with_row-Ranked }) (omega arith, tt)

abbrev comment_files : List (Bytes × Bytes)
comment_files = (codes "a", codes " /* * */// b\n x") ∷ []

comments_opened :
    lexer_init (record (context_init no_types) { mgr = comment_files }) 0 ≡ some at_comments
unfolding lexer_init
comments_opened = refl

parser_parse-ReadsAll_example : EndsWith ReadsAll (
    parser_init stale (record (context_init no_types) { mgr = comment_files }) at_comments
    >>= parser_parse 800)
parser_parse-ReadsAll_example =
    parser_parse-ReadsAll ascii_maps ascii_chars 800 stale comment_files 0 at_comments
      comments_opened (omega arith)

ascii_letters : AsciiLaws ascii
ascii_letters = record {
  alpha_letter = λ c. refl;
  digit_decimal = λ c. refl;
  alphanum_either = λ c. refl;
}

abbrev some_kinds : List TokenKind
some_kinds = kw_while ∷ l_paren ∷ kw_true ∷ log_and ∷ neq ∷ slash ∷ assign ∷ []

abbrev at_kinds : Lexer
at_kinds = record { file_id = 0; content = print some_kinds; cursor = 0; cut_off = false }

context_init-KnowsAll_example : KnowsAll ascii_maps ascii_names (context_init no_types) keywords
context_init-KnowsAll_example = context_init-KnowsAll ascii_maps ascii_names no_types

lexer_next-print_example : Lexes (context_init no_types) at_kinds some_kinds
unfolding tokenkind_to_cstr
lexer_next-print_example =
    lexer_next-print ascii_letters ascii_maps ascii_names some_kinds (context_init no_types)
      at_kinds refl (context_init-KnowsAll ascii_maps ascii_names no_types) refl

-- At the `+` of `1 + ;`.
abbrev at_plus : Parser
at_plus = record fresh_parser {
  lex = record { file_id = 0; content = codes "+;"; cursor = 1; cut_off = false };
  curr = record stale { kind = plus };
}

-- The same with `;` as the current token.
abbrev at_semicolon : Parser
at_semicolon = record at_plus {
  lex = record { file_id = 0; content = codes "+;"; cursor = 2; cut_off = false };
  curr = record { kind = semicolon; span_start = 1; span_end = 2; value = no_value };
  prev = record stale { kind = plus };
}

advanced : advance_token at_plus ≡ ok (tt, at_semicolon)
unfolding advance_token lexer_next skip_whitespace skip_rounds skip_round peek scan_token
    advance_char scan_punct advance
advanced = refl

parse_operators-missing_example : parse_operators 9 0 (int_node int_base 1) at_plus ≡ fault
unfolding get_prec
parse_operators-missing_example =
    parse_operators-missing 5 0 9 (int_node int_base 1) at_plus at_semicolon refl advanced refl refl

-- Behind the semicolon, at the end of the file.
abbrev at_eof : Parser
at_eof = record at_semicolon {
  curr = record { kind = eof; span_start = 2; span_end = 2; value = no_value };
  prev = record { kind = semicolon; span_start = 1; span_end = 2; value = no_value };
}

ended : advance_token at_semicolon ≡ ok (tt, at_eof)
unfolding advance_token lexer_next skip_whitespace skip_rounds skip_round peek
ended = refl

parse_return-empty_example : parse_return 9 at_semicolon ≡ (
    let base : Base = record { tok = at_semicolon.prev; node_type = none } in
    let ctx' = void_checked at_eof.ctx at_eof.sema.curr_func_ret base in
    ok (unary_node nd_return (typed base ctx'.types.ty_void) null, record at_eof { ctx = ctx' }))
parse_return-empty_example = parse_return-empty 9 at_semicolon at_eof refl ended

-- In front of `123;`.
abbrev at_digits : Lexer
at_digits = record in_digits { cursor = 0 }

semicolon-NumberEnds : NumberEnds (codes ";")
semicolon-NumberEnds = record {
  no_digit = refl;
  no_dot = refl;
  no_exponent = refl;
  no_suffix = refl;
  no_hex = refl;
}

scan_number-integer_example : scan_number row_context at_digits ≡ (
  make_token row_context (further_by 3 at_digits) 0 lit_int (as_int 123),
  row_context,
  further_by 3 at_digits,
)
scan_number-integer_example =
    scan_number-integer ascii_letters row_context at_digits b'1' (codes "23") (codes ";") refl
      semicolon-NumberEnds refl
