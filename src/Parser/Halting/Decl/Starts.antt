-- ===== src/Parser/Halting/Decl/Starts.antt =====
-- What a declaration begins with, and its checks that come to an end.
use cact.Prelude.{ℕ, ◌≡◌, refl, Bool, true, false, not, Option, none, some, List, [], ◌∷◌}
use cact.Ast.{Node, type_of_node}
use cact.Outcome.{Outcome, fault, out_of_fuel, ok, Halts}
use cact.Parser.Decl.{differs_from, init_mismatch}
use cact.Parser.Halting.{Done, done, faulted, At}
use cact.Parser.Halting.Checks.{type_of_node-Halts, types_match-Halts}
use cact.Parser.Monad.{Parser}
use cact.Parser.Tokens.{mem_kind, token_to_type}
use cact.Platform.{Platform}
use cact.Sema.{types_match}
use cact.Token.{TokenKind, eof, kw_const, kw_int, kw_bool, kw_float, kw_double, kw_void, same_kind}
use cact.Types.{TypePtr, TypeObject, TypeStore, is_null, deref}
use cact.Types.Ranked.Kept.{WellFormed, Follows-refl, Follows-trans}
use cact.Types.Shape.{IsReady}

abbrev pub type_kinds : List TokenKind
type_kinds = kw_int ∷ kw_float ∷ kw_double ∷ kw_bool ∷ kw_void ∷ []

-- The kinds that a declaration begins with.
abbrev pub decl_starts : List TokenKind
decl_starts = kw_const ∷ type_kinds

module _ ⦃env : Platform⦄ where
  not_null :
      (s : TypeStore) (p : TypePtr) {o : TypeObject} → deref s.heap p ≡ ok o → is_null p ≡ false
  unfolding deref
  not_null s none e = cc
  not_null s (some a) e = refl

  -- In a well-formed store exactly the type names have a type.
  pub is_null-token_to_type :
      (s : TypeStore) (k : TokenKind)
      → IsReady s
      → is_null (token_to_type s k) ≡ not (mem_kind k type_kinds)
  unfolding token_to_type
  is_null-token_to_type s kw_int r = not_null s s.ty_int r.int_at
  is_null-token_to_type s kw_float r = not_null s s.ty_float r.float_at
  is_null-token_to_type s kw_double r = not_null s s.ty_double r.double_at
  is_null-token_to_type s kw_bool r = not_null s s.ty_bool r.bool_at
  is_null-token_to_type s kw_void r = not_null s s.ty_void r.void_at
  is_null-token_to_type s _ r = refl

  pub type_name-eof :
      (s : TypeStore) (k : TokenKind)
      → is_null (token_to_type s k) ≡ false
      → same_kind k eof ≡ false
  unfolding token_to_type
  type_name-eof s eof e = cc
  type_name-eof s _ e = refl

  differs_from-Halts :
      (s : TypeStore) (ty : TypePtr) (o : Outcome TypePtr)
      → WellFormed s
      → Halts o
      → Halts (differs_from s ty o)
  differs_from-Halts s ty (ok t) w h = go (types_match s ty t) (types_match-Halts s ty t w)
    where
      go :
          (o : Outcome Bool)
          → Halts o
          → Halts (elim o as (λ _. Outcome Bool) [
            | ok same ↦ ok (not same)
            | fault ↦ fault
            | out_of_fuel ↦ out_of_fuel
          ])
      go (ok same) h = tt
      go fault h = tt
      go out_of_fuel h = h
  differs_from-Halts s ty fault w h = tt
  differs_from-Halts s ty out_of_fuel w h = h

  pub init_mismatch-Halts :
      (s : TypeStore) (ty : TypePtr) (x : Node) (b : Bool)
      → WellFormed s
      → Halts (init_mismatch s ty x b)
  unfolding init_mismatch
  init_mismatch-Halts s ty x true w = tt
  init_mismatch-Halts s ty x false w =
      differs_from-Halts s ty (type_of_node x) w (type_of_node-Halts x)

  -- From a state on, and back to where the parse began.
  pub At-here : {n c : ℕ} {s : TypeStore} {p : Parser} → At n s c p → At n p.ctx.types c p
  At-here {p} w = record {
    room = w.room;
    follows = Follows-refl p.ctx.types w.follows.well_formed;
    running = w.running;
  }

  pub At-there :
      {n c d : ℕ} {s : TypeStore} {p q : Parser} → At n s c p → At n p.ctx.types d q → At n s d q
  At-there {s} {p} {q} w v = record {
    room = v.room;
    follows = Follows-trans s p.ctx.types q.ctx.types w.follows v.follows;
    running = v.running;
  }

  pub read_int-Done :
      {R : ℕ → Parser → Type 0} (p : Parser) (v : Option ℕ)
      → ((i : ℕ) → R i p)
      → Done R (elim v as (λ _. Outcome (ℕ × Parser)) [ none ↦ fault | some i ↦ ok (i, p) ])
  read_int-Done p none h = faulted
  read_int-Done p (some i) h = done (h i)
