-- ===== src/Types/Shape.antt =====
-- What a type pointer stands for: a tree of types, apart from addresses.
use cact.Prelude.{
  ℕ, suc, ◌+◌, ◌≡◌, refl, ap, ◌≢◌, ◌↔◌, Bool, true, false, ◌&&◌, List, [], ◌∷◌, arith, ◌==◌, ==_iff,
  and_true, and_false, length,
}
use cact.Outcome.{ok}
use cact.Types.{
  void_kind, bool_kind, int_kind, float_kind, double_kind, TypePtr, primitive, array, func,
  TypeStore, deref,
}

mutual
  pub data Shape : Type 0 where
    void_shape bool_shape int_shape float_shape double_shape : Shape
    array_shape : Shape → ℕ → Shape
    func_shape : Shape → Shapes → Shape

  pub data Shapes : Type 0 where
    no_shapes : Shapes
    shape_then : Shape → Shapes → Shapes

unfoldable mutual
  pub same_shape : Shape → Shape → Bool
  same_shape void_shape void_shape = true
  same_shape bool_shape bool_shape = true
  same_shape int_shape int_shape = true
  same_shape float_shape float_shape = true
  same_shape double_shape double_shape = true
  same_shape (array_shape a m) (array_shape b n) = m == n && same_shape a b
  same_shape (func_shape r ps) (func_shape r' ps') = same_shape r r' && same_shapes ps ps'
  same_shape _ _ = false

  pub same_shapes : Shapes → Shapes → Bool
  same_shapes no_shapes no_shapes = true
  same_shapes (shape_then a as_) (shape_then b bs) = same_shape a b && same_shapes as_ bs
  same_shapes _ _ = false

unfoldable mutual
  pub depth : Shape → ℕ
  depth (array_shape a n) = suc (depth a)
  depth (func_shape r ps) = suc (depth r + depths ps)
  depth _ = 0

  pub depths : Shapes → ℕ
  depths no_shapes = 0
  depths (shape_then a as_) = depth a + depths as_

-- `Denotes s p t`: in the store `s` the pointer `p` stands for the type `t`.
mutual
  pub data Denotes (s : TypeStore) : TypePtr → Shape → Type 0 where
    voids : {p : TypePtr} → p ≡ s.ty_void → Denotes s p void_shape
    bools : {p : TypePtr} → p ≡ s.ty_bool → Denotes s p bool_shape
    ints : {p : TypePtr} → p ≡ s.ty_int → Denotes s p int_shape
    floats : {p : TypePtr} → p ≡ s.ty_float → Denotes s p float_shape
    doubles : {p : TypePtr} → p ≡ s.ty_double → Denotes s p double_shape
    arrays :
        {p base : TypePtr} {len size align : ℕ} {t : Shape}
        → deref s.heap p ≡ ok (array base len size align)
        → Denotes s base t
        → Denotes s p (array_shape t len)
    funcs :
        {p ret : TypePtr} {params : List TypePtr} {size align : ℕ} {t : Shape} {ts : Shapes}
        → deref s.heap p ≡ ok (func ret params size align)
        → Denotes s ret t
        → DenotesAll s params ts
        → Denotes s p (func_shape t ts)

  pub data DenotesAll (s : TypeStore) : List TypePtr → Shapes → Type 0 where
    none_left : DenotesAll s [] no_shapes
    one_more :
        {p : TypePtr} {ps : List TypePtr} {t : Shape} {ts : Shapes}
        → Denotes s p t
        → DenotesAll s ps ts
        → DenotesAll s (p ∷ ps) (shape_then t ts)

-- The five global types are in place: what `types_init` sets up and every later step keeps.
pub record IsReady (s : TypeStore) : Type 0 where
  pub void_at : deref s.heap s.ty_void ≡ ok (primitive void_kind 0 0)
  pub bool_at : deref s.heap s.ty_bool ≡ ok (primitive bool_kind 1 1)
  pub int_at : deref s.heap s.ty_int ≡ ok (primitive int_kind 4 4)
  pub float_at : deref s.heap s.ty_float ≡ ok (primitive float_kind 4 4)
  pub double_at : deref s.heap s.ty_double ≡ ok (primitive double_kind 8 8)

pub count_shapes : Shapes → ℕ
count_shapes no_shapes = 0
count_shapes (shape_then t ts) = suc (count_shapes ts)

pub length-DenotesAll :
    {s : TypeStore} {ps : List TypePtr} {ts : Shapes}
    → DenotesAll s ps ts
    → length ps ≡ count_shapes ts
unfolding count_shapes
length-DenotesAll none_left = refl
length-DenotesAll (one_more d ds) = ap suc (length-DenotesAll ds)

pub same_shapes-count :
    (ts us : Shapes) → count_shapes ts ≢ count_shapes us → same_shapes ts us ≡ false
unfolding same_shape count_shapes
same_shapes-count no_shapes no_shapes h = absurd (h refl)
same_shapes-count no_shapes (shape_then u us) h = refl
same_shapes-count (shape_then t ts) no_shapes h = refl
same_shapes-count (shape_then t ts) (shape_then u us) h =
    and_false (same_shape t u) _ (same_shapes-count ts us (λ e. h (ap suc e)))

-- The kind of a type, as its enumerator's value.
abbrev pub shape_index : Shape → ℕ
shape_index void_shape = 0
shape_index bool_shape = 1
shape_index int_shape = 2
shape_index float_shape = 3
shape_index double_shape = 4
shape_index (array_shape t n) = 5
shape_index (func_shape t ts) = 6

pub same_shape-index : (t u : Shape) → shape_index t ≢ shape_index u → same_shape t u ≡ false
unfolding same_shape
same_shape-index void_shape void_shape h = absurd (h refl)
same_shape-index bool_shape bool_shape h = absurd (h refl)
same_shape-index int_shape int_shape h = absurd (h refl)
same_shape-index float_shape float_shape h = absurd (h refl)
same_shape-index double_shape double_shape h = absurd (h refl)
same_shape-index (array_shape _ _) (array_shape _ _) h = absurd (h refl)
same_shape-index (func_shape _ _) (func_shape _ _) h = absurd (h refl)
same_shape-index _ _ h = refl

mutual
  unfolding same_shape

  same_shape-eq : (t u : Shape) → same_shape t u ≡ true → t ≡ u
  same_shape-eq void_shape void_shape h = refl
  same_shape-eq bool_shape bool_shape h = refl
  same_shape-eq int_shape int_shape h = refl
  same_shape-eq float_shape float_shape h = refl
  same_shape-eq double_shape double_shape h = refl
  same_shape-eq (array_shape a m) (array_shape b n) h =
      let both = and_true (m == n) (same_shape a b) h in
      cc (same_shape-eq a b both.1, (==_iff m n).0 both.0)
  same_shape-eq (func_shape r ps) (func_shape r' ps') h =
      let both = and_true (same_shape r r') (same_shapes ps ps') h in
      cc (same_shape-eq r r' both.0, same_shapes-eq ps ps' both.1)
  same_shape-eq _ _ h = cc

  same_shapes-eq : (ts us : Shapes) → same_shapes ts us ≡ true → ts ≡ us
  same_shapes-eq no_shapes no_shapes h = refl
  same_shapes-eq (shape_then a as_) (shape_then b bs) h =
      let both = and_true (same_shape a b) (same_shapes as_ bs) h in
      cc (same_shape-eq a b both.0, same_shapes-eq as_ bs both.1)
  same_shapes-eq _ _ h = cc

mutual
  unfolding same_shape

  same_shape_refl : (t : Shape) → same_shape t t ≡ true
  same_shape_refl (array_shape a m) = ground (arith, same_shape_refl a)
  same_shape_refl (func_shape r ps) = ground (arith, same_shape_refl r, same_shapes_refl ps)
  same_shape_refl _ = refl

  same_shapes_refl : (ts : Shapes) → same_shapes ts ts ≡ true
  same_shapes_refl no_shapes = refl
  same_shapes_refl (shape_then a as_) = ground (arith, same_shape_refl a, same_shapes_refl as_)

-- The test is the equality of shapes.
pub same_shape_iff : (t u : Shape) → (same_shape t u ≡ true) ↔ (t ≡ u)
same_shape_iff t u = (same_shape-eq t u, λ e. rw e (same_shape_refl u))
