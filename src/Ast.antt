-- ===== src/Ast.antt =====
-- include/ast.h and `struct SemaSymbol` of include/sema.h: the syntax tree.
use cact.Prelude.{ℕ, Bool, true, false, Option, none, some, if◌then◌else◌, Bytes}
use cact.Outcome.{Outcome, fault, ok, ◌>>=◌}
use cact.Platform.{Platform}
use cact.Token.Value.{Token}
use cact.Types.{TypePtr}

-- The kinds of nodes that share a shape, by shape.
pub data UnaryKind : Type 0 where
  nd_neg nd_log_not nd_return nd_expr_stmt : UnaryKind

pub data BinaryKind : Type 0 where
  nd_add nd_sub nd_mul nd_div nd_mod : BinaryKind
  nd_eq nd_ne nd_lt nd_le nd_gt nd_ge : BinaryKind
  nd_log_and nd_log_or nd_assign nd_array_access : BinaryKind

pub data JumpKind : Type 0 where
  nd_break nd_continue : JumpKind

-- A symbol is not changed after it was made, so a pointer to it is the symbol. `stack_offset` is
-- always 0.
pub record SemaSymbol : Type 0 where
  pub symbol_name : ℕ
  pub ty : TypePtr
  pub is_const : Bool
  pub is_global : Bool
  pub stack_offset : ℕ

module _ ⦃env : Platform⦄ where
  -- `struct Node`, but for the kind.
  pub record Base : Type 0 where
    pub tok : Token
    pub node_type : TypePtr

  -- A `struct Node *`: `null`, or a node with the members of its struct. `indeterminate` is a
  -- pointer member that was not written, in a block that was not cleared.
  mutual
    pub data Node : Type 0 where
      null indeterminate : Node
      int_node : Base → ℕ → Node
      float_node : Base → env.Float → Node
      double_node : Base → env.Double → Node
      bool_node : Base → Bool → Node
      init_list : Base → Nodes → Node
      var_node : Base → Option SemaSymbol → Node
      call_node : Base → Bytes → Nodes → Node
      unary_node : UnaryKind → Base → Node → Node
      binary_node : BinaryKind → Base → Node → Node → Node
      if_node : Base → Node → Node → Node → Node
      while_node : Base → Node → Node → Node
      block_node : Base → Nodes → Node
      decl_node : Base → Option SemaSymbol → Node → Node
      jump_node : JumpKind → Base → Node

    -- The vectors of nodes.
    pub data Nodes : Type 0 where
      no_nodes : Nodes
      node_then : Node → Nodes → Nodes

  -- `vec_push`.
  abbrev pub push_node : Nodes → Node → Nodes
  push_node no_nodes n = node_then n no_nodes
  push_node (node_then m ms) n = node_then m (push_node ms n)

  -- The member of a fresh node that nothing was written to.
  abbrev pub unwritten : Node
  unwritten = if env.zeroed then null else indeterminate

  -- `n == NULL`.
  abbrev pub test_null : Node → Outcome Bool
  test_null null = ok true
  test_null indeterminate = fault
  test_null _ = ok false

  -- The base of the node behind a pointer.
  abbrev pub base_node : Node → Outcome Base
  base_node null = fault
  base_node indeterminate = fault
  base_node (int_node b _) = ok b
  base_node (float_node b _) = ok b
  base_node (double_node b _) = ok b
  base_node (bool_node b _) = ok b
  base_node (init_list b _) = ok b
  base_node (var_node b _) = ok b
  base_node (call_node b _ _) = ok b
  base_node (unary_node _ b _) = ok b
  base_node (binary_node _ b _ _) = ok b
  base_node (if_node b _ _ _) = ok b
  base_node (while_node b _ _) = ok b
  base_node (block_node b _) = ok b
  base_node (decl_node b _ _) = ok b
  base_node (jump_node _ b) = ok b

  -- `n->ty`.
  abbrev pub type_of_node : Node → Outcome TypePtr
  type_of_node n = do b ← base_node n; ok b.node_type

  -- `n->kind == ND_VAR`, and then the symbol of the `struct NodeVar`.
  abbrev pub var_of_node : Node → Outcome (Option (Option SemaSymbol))
  var_of_node null = fault
  var_of_node indeterminate = fault
  var_of_node (var_node _ var) = ok (some var)
  var_of_node _ = ok none
