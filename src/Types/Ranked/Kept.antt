-- ===== src/Types/Ranked/Kept.antt =====
-- The stores that the program builds have no cycles: the invariant, and that `types_init`, the
-- allocations and `push_param` keep it.
use cact.Prelude.{
  ℕ, ◌≤◌, ◌≡◌, inl, inr, Option, none, some, List, [], ◌∷◌, ◌++◌, arith, ltb, ◌==◌, ltb→lt, ==_iff,
  Bool-cases, length, get_elem?, length-concat, get_elem?-append_length, get_elem?-lt,
  get_elem?-append_lt, get_elem?-append_past,
}
use cact.Outcome.{Outcome, fault, out_of_fuel, ok, ◌>>=◌, Halts}
use cact.Parser.Tokens.{token_to_type}
use cact.Platform.{Platform}
use cact.Token.{TokenKind, kw_int, kw_bool, kw_float, kw_double, kw_void}
use cact.Types.{
  void_kind, bool_kind, int_kind, float_kind, double_kind, TypePtr, TypeObject, primitive, array,
  func, size_of, align_of, TypeStore, deref, new_primitive, types_init, mul_int, type_array_of,
  type_func_new,
}
use cact.Types.Ranked.{NotFunc, Plain, PlainAll, Fine, Ranked, deref-Halts, object_at}
use cact.Types.Shape.{IsReady}
use cact.Types.Store.{grown, grown-IsReady, types_init-IsReady}

abbrev pub PlainIn : TypeStore → TypePtr → Type 0
PlainIn s p = Plain s.heap (length s.heap) p

-- The global types are in place, the arena has no cycle.
pub record WellFormed (s : TypeStore) : Type 0 where
  pub ready : IsReady s
  pub ranked : Ranked s.heap

-- A later store: what was no function still is none.
pub record Follows (s s' : TypeStore) : Type 0 where
  pub well_formed : WellFormed s'
  pub still_plain : (p : TypePtr) → PlainIn s p → PlainIn s' p

pub Follows-refl : (s : TypeStore) → WellFormed s → Follows s s
Follows-refl s w = record { well_formed = w; still_plain = λ p h. h }

pub Follows-trans : (a b c : TypeStore) → Follows a b → Follows b c → Follows a c
Follows-trans a b c h k = record {
  well_formed = k.well_formed;
  still_plain = λ p i. k.still_plain p (h.still_plain p i);
}

deref-Plain :
    (heap : List (Option TypeObject)) (p : TypePtr) {o : TypeObject}
    → deref heap p ≡ ok o
    → NotFunc (some (some o))
    → Plain heap (length heap) p
deref-Plain heap none e nf = tt
deref-Plain heap (some a) e nf = let g = object_at heap a e in (get_elem?-lt heap a g, rw g nf)

-- The pointers of the global types.
pub token_to_type-Plain :
    ⦃env : Platform⦄ → (s : TypeStore) (k : TokenKind) → IsReady s → PlainIn s (token_to_type s k)
unfolding token_to_type
token_to_type-Plain s kw_int r = deref-Plain s.heap s.ty_int r.int_at tt
token_to_type-Plain s kw_float r = deref-Plain s.heap s.ty_float r.float_at tt
token_to_type-Plain s kw_double r = deref-Plain s.heap s.ty_double r.double_at tt
token_to_type-Plain s kw_bool r = deref-Plain s.heap s.ty_bool r.bool_at tt
token_to_type-Plain s kw_void r = deref-Plain s.heap s.ty_void r.void_at tt
token_to_type-Plain s _ r = tt

module _ (heap : List (Option TypeObject)) (o : TypeObject) where
  abbrev heap' : List (Option TypeObject)
  heap' = heap ++ some o ∷ []

  Plain-grown : (m n : ℕ) (p : TypePtr) → m ≤ length heap → m ≤ n → Plain heap m p → Plain heap' n p
  Plain-grown m n none k l h = tt
  Plain-grown m n (some a) k l (lt', nf) =
      (omega (arith, lt'), rw (get_elem?-append_lt heap (some o ∷ []) a (omega (arith, lt'))) nf)

  PlainAll-grown :
      (m n : ℕ) (ps : List TypePtr)
      → m ≤ length heap
      → m ≤ n
      → PlainAll heap m ps
      → PlainAll heap' n ps
  PlainAll-grown m n [] k l h = tt
  PlainAll-grown m n (p ∷ ps) k l (h, hs) = (Plain-grown m n p k l h, PlainAll-grown m n ps k l hs)

  Fine-grown :
      (a : ℕ) (x : Option (Option TypeObject)) → a ≤ length heap → Fine heap a x → Fine heap' a x
  Fine-grown a (some (some (array base _ _ _))) k h = Plain-grown a a base k (omega arith) h
  Fine-grown a (some (some (func ret ps _ _))) k (h, hs) =
      let longer = length-concat heap (some o) in
      (
        Plain-grown (length heap) (length heap') ret (omega arith) (omega (arith, longer)) h,
        PlainAll-grown (length heap) (length heap') ps (omega arith) (omega (arith, longer)) hs,
      )
  Fine-grown a (some (some (primitive _ _ _))) k h = tt
  Fine-grown a (some none) k h = tt
  Fine-grown a none k h = tt

  Ranked-grown : Ranked heap → Fine heap (length heap) (some (some o)) → Ranked heap'
  Ranked-grown ranked new a = elim (Bool-cases (ltb a (length heap))) [
    | inl e ↦
        let k = ltb→lt a (length heap) e in
        rw (get_elem?-append_lt heap (some o ∷ []) a k)
          (Fine-grown a (get_elem? heap a) (omega (arith, k)) (ranked a))
    | inr e ↦ elim (Bool-cases (a == length heap)) [
      | inl e' ↦
          let at : a ≡ length heap = (==_iff a (length heap)).0 e' in
          rw (at, get_elem?-append_length heap (some o))
            (Fine-grown (length heap) (some (some o)) (omega arith) new)
      | inr e' ↦ rw (get_elem?-append_past heap (some o) a (ground arith)) tt
    ]
  ]

-- Five primitive types more.
pub types_init-WellFormed : (s : TypeStore) → Ranked s.heap → WellFormed (types_init s)
unfolding types_init new_primitive
types_init-WellFormed s ranked =
    let v = primitive void_kind 0 0 in
    let b = primitive bool_kind 1 1 in
    let i = primitive int_kind 4 4 in
    let f = primitive float_kind 4 4 in
    let d = primitive double_kind 8 8 in
    let h₁ = s.heap ++ some v ∷ [] in
    let h₂ = h₁ ++ some b ∷ [] in
    let h₃ = h₂ ++ some i ∷ [] in
    let h₄ = h₃ ++ some f ∷ [] in
    record {
      ready = types_init-IsReady s;
      ranked =
          Ranked-grown h₄ d
            (Ranked-grown h₃ f
              (Ranked-grown h₂ i (Ranked-grown h₁ b (Ranked-grown s.heap v ranked tt) tt) tt) tt)
            tt;
    }

-- An allocation of an object that points to what is no function.
grown-Follows :
    (s : TypeStore) (o : TypeObject)
    → WellFormed s
    → Fine s.heap (length s.heap) (some (some o))
    → Follows s (grown s (some o))
grown-Follows s o w new = record {
  well_formed = record {
    ready = grown-IsReady s (some o) w.ready;
    ranked = Ranked-grown s.heap o w.ranked new;
  };
  still_plain = λ p h.
      Plain-grown s.heap o (length s.heap) _ p (omega arith)
        (omega (arith, length-concat s.heap (some o))) h;
}

pub type_func_new-Follows :
    (s : TypeStore) (ret : TypePtr)
    → WellFormed s
    → PlainIn s ret
    → Follows s ((type_func_new s ret).1)
unfolding type_func_new
type_func_new-Follows s ret w h = grown-Follows s (func ret [] 8 8) w (h, tt)

-- What `type_array_of` gives, if it gives anything.
abbrev pub MadeArray : TypeStore → Outcome (TypePtr × TypeStore) → Type 0
MadeArray s (ok (p, s')) = Follows s s' × PlainIn s' p
MadeArray s fault = Unit
MadeArray s out_of_fuel = ⊥

pub type_array_of-MadeArray :
    (s : TypeStore) (base : TypePtr) (len : ℕ)
    → WellFormed s
    → PlainIn s base
    → MadeArray s (type_array_of s base len)
unfolding type_array_of
type_array_of-MadeArray s base len w h = go (deref s.heap base) (deref-Halts s.heap base)
  where
    go :
        (o : Outcome TypeObject)
        → Halts o
        → MadeArray s (
            o >>= λ ty. ok (
              some (length s.heap),
              record s {
                heap =
                    s.heap ++ some (array base len (mul_int (size_of ty) len) (align_of ty)) ∷ [];
              },
            ))
    go (ok ty) k =
        let new = array base len (mul_int (size_of ty) len) (align_of ty) in
        (
          grown-Follows s new w h,
          (
            omega (arith, length-concat s.heap (some new)),
            rw (get_elem?-append_length s.heap (some new)) tt,
          ),
        )
    go fault k = tt
    go out_of_fuel k = absurd k
