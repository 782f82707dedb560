-- ===== src/Types/Store.antt =====
-- Allocation: what pointers denote stays, and new types denote what they were made from.
use cact.Prelude.{
  ℕ, ◌≡◌, refl, Option, none, some, List, [], ◌∷◌, ◌++◌, length, get_elem?, get_elem?-append,
  get_elem?-append_length,
}
use cact.Outcome.{ok}
use cact.Types.{
  void_kind, bool_kind, int_kind, float_kind, double_kind, TypePtr, TypeObject, primitive, array,
  func, size_of, align_of, TypeStore, found, deref, new_primitive, types_init, mul_int,
  type_array_of, type_func_new,
}
use cact.Types.Equality.{object_of}
use cact.Types.Shape.{
  Shape, array_shape, func_shape, Shapes, no_shapes, Denotes, voids, bools, ints, floats, doubles,
  arrays, funcs, DenotesAll, none_left, one_more, IsReady,
}

pub found-eq :
    (x : Option (Option TypeObject)) {o : TypeObject} → found x ≡ ok o → x ≡ some (some o)
found-eq none h = cc
found-eq (some none) h = cc
found-eq (some (some ty)) h = cc

pub deref-append :
    (heap : List (Option TypeObject)) (new : Option TypeObject) (p : TypePtr) {o : TypeObject}
    → deref heap p ≡ ok o
    → deref (heap ++ new ∷ []) p ≡ ok o
unfolding deref
deref-append heap new none h = cc
deref-append heap new (some a) h =
    rw (get_elem?-append heap (new ∷ []) a (found-eq (get_elem? heap a) h)) refl

pub deref_new :
    (heap : List (Option TypeObject)) (o : TypeObject)
    → deref (heap ++ some o ∷ []) (some (length heap)) ≡ ok o
unfolding deref
deref_new heap o = rw (get_elem?-append_length heap (some o)) refl

module _ (s : TypeStore) (new : Option TypeObject) where
  abbrev pub grown : TypeStore
  grown = record s { heap = s.heap ++ new ∷ [] }

  pub grown-IsReady : IsReady s → IsReady grown
  grown-IsReady ready = record {
    void_at = deref-append s.heap new s.ty_void ready.void_at;
    bool_at = deref-append s.heap new s.ty_bool ready.bool_at;
    int_at = deref-append s.heap new s.ty_int ready.int_at;
    float_at = deref-append s.heap new s.ty_float ready.float_at;
    double_at = deref-append s.heap new s.ty_double ready.double_at;
  }

  mutual
    grown-Denotes : {p : TypePtr} {t : Shape} → Denotes s p t → Denotes grown p t
    grown-Denotes (voids e) = voids e
    grown-Denotes (bools e) = bools e
    grown-Denotes (ints e) = ints e
    grown-Denotes (floats e) = floats e
    grown-Denotes (doubles e) = doubles e
    grown-Denotes {p} (arrays e d) = arrays (deref-append s.heap new p e) (grown-Denotes d)
    grown-Denotes {p} (funcs e d ds) =
        funcs (deref-append s.heap new p e) (grown-Denotes d) (grown-DenotesAll ds)

    grown-DenotesAll :
        {ps : List TypePtr} {ts : Shapes} → DenotesAll s ps ts → DenotesAll grown ps ts
    grown-DenotesAll none_left = none_left
    grown-DenotesAll (one_more d ds) = one_more (grown-Denotes d) (grown-DenotesAll ds)

-- The globals are in place, and every type that was denoted is denoted by the same pointer.
pub record Extends (s s' : TypeStore) : Type 0 where
  pub still_ready : IsReady s'
  pub still_denotes : (p : TypePtr) (t : Shape) → Denotes s p t → Denotes s' p t

grown-Extends : (s : TypeStore) (new : Option TypeObject) → IsReady s → Extends s (grown s new)
grown-Extends s new ready = record {
  still_ready = grown-IsReady s new ready;
  still_denotes = λ p t d. grown-Denotes s new d;
}

-- `type_array_of` on a pointer that denotes a type always gives a pointer, which denotes the arrays
-- of that type with that length, in a store where all that was denoted still is.
pub type_array_of-Denotes :
    (s : TypeStore) (base : TypePtr) (len : ℕ) {t : Shape}
    → IsReady s
    → Denotes s base t
    → (p : TypePtr) × (s' : TypeStore) × (type_array_of s base len ≡ ok (p, s'))
      × Denotes s' p (array_shape t len)
      × Extends s s'
unfolding type_array_of
type_array_of-Denotes s base len ready d =
    let (o, e, _) = object_of ready d in
    let new = array base len (mul_int (size_of o) len) (align_of o) in
    (
      some (length s.heap),
      grown s (some new),
      rw e refl,
      arrays (deref_new s.heap new) (grown-Denotes s (some new) d),
      grown-Extends s (some new) ready,
    )

-- `type_func_new` gives a pointer that denotes the functions without parameters to the type that
-- its argument denotes, in a store where all that was denoted still is.
pub type_func_new-Denotes :
    (s : TypeStore) (ret : TypePtr) {t : Shape}
    → IsReady s
    → Denotes s ret t
    → Denotes ((type_func_new s ret).1) ((type_func_new s ret).0) (func_shape t no_shapes)
      × Extends s ((type_func_new s ret).1)
unfolding type_func_new
type_func_new-Denotes s ret ready d = (
  funcs (deref_new s.heap (func ret [] 8 8)) (grown-Denotes s (some (func ret [] 8 8)) d) none_left,
  grown-Extends s (some (func ret [] 8 8)) ready,
)

-- Whatever the arena holds, `types_init` puts the five global types in place.
pub types_init-IsReady : (s : TypeStore) → IsReady (types_init s)
unfolding types_init new_primitive
types_init-IsReady s =
    let v = primitive void_kind 0 0 in
    let b = primitive bool_kind 1 1 in
    let i = primitive int_kind 4 4 in
    let f = primitive float_kind 4 4 in
    let d = primitive double_kind 8 8 in
    let h₁ = s.heap ++ some v ∷ [] in
    let h₂ = h₁ ++ some b ∷ [] in
    let h₃ = h₂ ++ some i ∷ [] in
    let h₄ = h₃ ++ some f ∷ [] in
    let pv = some (length s.heap) in
    let pb = some (length h₁) in
    let pi = some (length h₂) in
    let pf = some (length h₃) in
    record {
      void_at = deref-append h₄ (some d) pv (
          deref-append h₃ (some f) pv
            (deref-append h₂ (some i) pv (deref-append h₁ (some b) pv (deref_new s.heap v))));
      bool_at =
          deref-append h₄ (some d) pb
            (deref-append h₃ (some f) pb (deref-append h₂ (some i) pb (deref_new h₁ b)));
      int_at = deref-append h₄ (some d) pi (deref-append h₃ (some f) pi (deref_new h₂ i));
      float_at = deref-append h₄ (some d) pf (deref_new h₃ f);
      double_at = deref_new h₄ d;
    }
