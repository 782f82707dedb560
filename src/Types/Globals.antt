-- ===== src/Types/Globals.antt =====
-- Comparisons with the global type pointers, for types that pointers stand for.
use cact.Prelude.{
  ◌≡◌, refl, sym, ap, ◌∙◌, ◌≢◌, inl, inr, Bool, true, false, ◌||◌, arith, ◌==◌, Bool-cases,
}
use cact.Outcome.{ok}
use cact.Types.{
  typekind_index, TypePtr, TypeObject, kind_of, TypeStore, ptr_eq, deref, type_is_arithmetic,
}
use cact.Types.Equality.{object_of, Fits-index, ptr_eq→eq, ptr_eq_refl}
use cact.Types.Shape.{
  Shape, int_shape, float_shape, double_shape, Denotes, voids, bools, ints, floats, doubles,
  IsReady, shape_index,
}

abbrev pub is_numeric : Shape → Bool
is_numeric int_shape = true
is_numeric float_shape = true
is_numeric double_shape = true
is_numeric _ = false

module _ {s : TypeStore} (ready : IsReady s) where
  other_pointer :
      {p : TypePtr} {t : Shape} (q : TypePtr) {o : TypeObject}
      → Denotes s p t
      → deref s.heap q ≡ ok o
      → shape_index t ≢ typekind_index (kind_of o)
      → ptr_eq p q ≡ false
  other_pointer {p} {t} q {o} d dq n = elim (Bool-cases (ptr_eq p q)) [
    | inl e ↦
        let (x, dx, fx) = object_of ready d in
        let objects : x ≡ o = cc (ptr_eq→eq p q e, dx, dq) in
        absurd (n (sym (Fits-index ready t x fx) ∙ ap (λ y. typekind_index (kind_of y)) objects))
    | inr e ↦ e
  ]

  pub ptr_eq-void :
      {p : TypePtr} {t : Shape} → Denotes s p t → ptr_eq p s.ty_void ≡ (shape_index t == 0)
  ptr_eq-void (voids e) = rw e (ptr_eq_refl s.ty_void)
  ptr_eq-void d = other_pointer s.ty_void d ready.void_at (omega arith)

  pub ptr_eq-bool :
      {p : TypePtr} {t : Shape} → Denotes s p t → ptr_eq p s.ty_bool ≡ (shape_index t == 1)
  ptr_eq-bool (bools e) = rw e (ptr_eq_refl s.ty_bool)
  ptr_eq-bool d = other_pointer s.ty_bool d ready.bool_at (omega arith)

  pub ptr_eq-int :
      {p : TypePtr} {t : Shape} → Denotes s p t → ptr_eq p s.ty_int ≡ (shape_index t == 2)
  ptr_eq-int (ints e) = rw e (ptr_eq_refl s.ty_int)
  ptr_eq-int d = other_pointer s.ty_int d ready.int_at (omega arith)

  ptr_eq-float :
      {p : TypePtr} {t : Shape} → Denotes s p t → ptr_eq p s.ty_float ≡ (shape_index t == 3)
  ptr_eq-float (floats e) = rw e (ptr_eq_refl s.ty_float)
  ptr_eq-float d = other_pointer s.ty_float d ready.float_at (omega arith)

  ptr_eq-double :
      {p : TypePtr} {t : Shape} → Denotes s p t → ptr_eq p s.ty_double ≡ (shape_index t == 4)
  ptr_eq-double (doubles e) = rw e (ptr_eq_refl s.ty_double)
  ptr_eq-double d = other_pointer s.ty_double d ready.double_at (omega arith)

  pub type_is_arithmetic-is_numeric :
      {p : TypePtr} {t : Shape} → Denotes s p t → type_is_arithmetic s p ≡ is_numeric t
  unfolding type_is_arithmetic
  type_is_arithmetic-is_numeric {p} {t} d =
      rw (ptr_eq-int d, ptr_eq-float d, ptr_eq-double d) (numeric t)
    where
      numeric :
          (t : Shape)
          → (shape_index t == 2 || shape_index t == 3 || shape_index t == 4) ≡ is_numeric t
      numeric int_shape = refl
      numeric _ = refl
