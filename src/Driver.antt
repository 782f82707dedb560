-- ===== src/Driver.antt =====
-- src/main.c: the command line and the pipeline.
pub mod Status
pub mod Halting
pub mod Reading
pub mod CommandLine
use cact.Prelude.{
  ℕ, suc, ◌+◌, ◌*◌, Bool, true, false, not, ◌&&◌, ◌||◌, Option, none, some, List, [], ◌∷◌, ◌==◌,
  if◌then◌else◌, length, Bytes, codes,
}
use cact.Ast.{
  UnaryKind, nd_neg, nd_log_not, nd_return, nd_expr_stmt, BinaryKind, nd_add, nd_sub, nd_mul,
  nd_div, nd_mod, nd_eq, nd_ne, nd_lt, nd_le, nd_gt, nd_ge, nd_log_and, nd_log_or, nd_assign,
  nd_array_access, JumpKind, nd_break, nd_continue, Node, null, indeterminate, int_node, float_node,
  double_node, bool_node, init_list, var_node, call_node, unary_node, binary_node, if_node,
  while_node, block_node, decl_node, jump_node, Nodes, no_nodes, node_then,
}
use cact.Context.{Diagnostic, Context, context_init, context_deinit}
use cact.Lexer.{lexer_init}
use cact.Outcome.{Outcome, fault, ok, ◌>>=◌}
use cact.Parser.TopLevel.{parser_init, parser_parse}
use cact.Platform.{Platform}
use cact.Token.Value.{Token}
use cact.Types.{no_types}

-- The value of the enumerator of a node's kind.
abbrev pub unary_index : UnaryKind → ℕ
unary_index nd_neg = 8
unary_index nd_log_not = 9
unary_index nd_return = 28
unary_index nd_expr_stmt = 29

abbrev pub binary_index : BinaryKind → ℕ
binary_index nd_array_access = 7
binary_index nd_add = 11
binary_index nd_sub = 12
binary_index nd_mul = 13
binary_index nd_div = 14
binary_index nd_mod = 15
binary_index nd_eq = 16
binary_index nd_ne = 17
binary_index nd_lt = 18
binary_index nd_le = 19
binary_index nd_gt = 20
binary_index nd_ge = 21
binary_index nd_log_and = 22
binary_index nd_log_or = 23
binary_index nd_assign = 24

abbrev pub jump_index : JumpKind → ℕ
jump_index nd_break = 31
jump_index nd_continue = 32

-- What the program writes, one constructor for each format; diagnostics stand in the context.
pub data Output : Type 0 where
  usage no_input_file : Output
  compiling unreadable : Bytes → Output
  parsed : ℕ → Output
  node_kind : ℕ → Output

-- Room for the parser's recursion on a source of this many bytes.
abbrev pub parse_fuel : ℕ → ℕ
parse_fuel len = 32 * (len + 4)

-- `argv[i][0] != '-'`; an empty argument has the byte 0 there.
abbrev pub is_operand : Bytes → Bool
is_operand [] = true
is_operand (c ∷ cs) = not (c == b'-')

-- `strcmp(a, b) == 0`.
unfoldable pub same_text : Bytes → Bytes → Bool
same_text [] [] = true
same_text (a ∷ as_) (b ∷ bs) = a == b && same_text as_ bs
same_text _ _ = false

-- How the loop over the arguments ends: at a request for help, or with the last operand.
pub data Arguments : Type 0 where
  help : Arguments
  input : Option Bytes → Arguments

unfoldable pub read_arguments : List Bytes → Option Bytes → Arguments
read_arguments [] input_file = input input_file
read_arguments (arg ∷ args) input_file =
    let rest = read_arguments args (if is_operand arg then some arg else input_file) in
    if same_text arg (codes "-h") || same_text arg (codes "--help") then help else rest

module _ ⦃env : Platform⦄ where
  -- The kind of a node that was parsed.
  abbrev pub node_index : Node → Outcome ℕ
  node_index null = fault
  node_index indeterminate = fault
  node_index (int_node _ _) = ok 0
  node_index (float_node _ _) = ok 1
  node_index (double_node _ _) = ok 2
  node_index (bool_node _ _) = ok 3
  node_index (init_list _ _) = ok 4
  node_index (var_node _ _) = ok 5
  node_index (call_node _ _ _) = ok 6
  node_index (unary_node k _ _) = ok (unary_index k)
  node_index (binary_node k _ _ _) = ok (binary_index k)
  node_index (block_node _ _) = ok 25
  node_index (if_node _ _ _ _) = ok 26
  node_index (while_node _ _ _) = ok 27
  node_index (decl_node _ _ _) = ok 30
  node_index (jump_node k _) = ok (jump_index k)

  unfoldable pub node_lines : Nodes → Outcome (List Output)
  node_lines no_nodes = ok []
  node_lines (node_then n ns) = do k ← node_index n; rest ← node_lines ns; ok (node_kind k ∷ rest)

  abbrev pub count_nodes : Nodes → ℕ
  count_nodes no_nodes = 0
  count_nodes (node_then n ns) = suc (count_nodes ns)

  -- The result of `run_compile`, with what was written and the context at the end.
  pub record Compiled : Type 0 where
    pub success : Bool
    pub output : List Output
    pub final : Context

  unfoldable pub report : Bytes → Nodes → Context → Outcome Compiled
  report filepath globals ctx =
      if ctx.had_error
      then ok (record { success = false; output = compiling filepath ∷ []; final = ctx })
      else do
        lines ← node_lines globals
        ok (record {
          success = true;
          output = compiling filepath ∷ parsed (count_nodes globals) ∷ lines;
          final = ctx;
        })

  -- From the file's contents on.
  unfoldable pub compile_source : Token → Context → Bytes → Bytes → Outcome Compiled
  compile_source stale ctx₀ filepath content = do
    let added = env.srcmanager_add ctx₀.mgr filepath content
    let ctx = record ctx₀ { mgr = added.0 }
    lex ← (elim (lexer_init ctx added.1) [ none ↦ fault | some l ↦ ok l ])
    p ← parser_init stale ctx lex
    parsed_file ← parser_parse (parse_fuel (length lex.content)) p
    report filepath parsed_file.0 (parsed_file.1).ctx

  -- `files` is the file system: `file_read_to_string`.
  unfoldable pub run_compile : (Bytes → Option Bytes) → Token → Context → Bytes → Outcome Compiled
  run_compile files stale ctx filepath = elim (files filepath) [
    | none ↦ ok (record { success = false; output = unreadable filepath ∷ []; final = ctx })
    | some content ↦ compile_source stale ctx filepath content
  ]

  -- The exit status and what was written; the diagnostics come from the context.
  pub record Exit : Type 0 where
    pub status : ℕ
    pub printed : List Output
    pub diagnostics : List Diagnostic

  unfoldable pub main_with : (Bytes → Option Bytes) → Token → Arguments → Outcome Exit
  main_with files stale help = ok (record { status = 0; printed = usage ∷ []; diagnostics = [] })
  main_with files stale (input none) =
      ok (record { status = 1; printed = no_input_file ∷ []; diagnostics = [] })
  main_with files stale (input (some input_file)) = do
    c ← run_compile files stale (context_init no_types) input_file
    let ctx = context_deinit c.final
    ok (record {
      status = if c.success then 0 else 1;
      printed = c.output;
      diagnostics = ctx.stderr;
    })

  -- `args` are those behind the program's name.
  unfoldable pub main : (Bytes → Option Bytes) → Token → List Bytes → Outcome Exit
  main files stale [] = ok (record { status = 1; printed = usage ∷ []; diagnostics = [] })
  main files stale (arg ∷ args) = main_with files stale (read_arguments (arg ∷ args) none)
