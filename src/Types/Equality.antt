-- ===== src/Types/Equality.antt =====
-- `type_eq` decides the equality of the types that two pointers stand for.
use cact.Prelude.{
  ℕ, zero, suc, ◌<◌, ◌≡◌, refl, sym, ap, ◌∙◌, ◌≢◌, inl, inr, true, false, not, Option, none, some,
  List, [], ◌∷◌, arith, ◌==◌, if◌then◌else◌, ==_iff, Bool-cases, false-ne-true, length,
}
use cact.Outcome.{ok}
use cact.Types.{
  void_kind, bool_kind, int_kind, float_kind, double_kind, array_kind, func_kind, typekind_index,
  TypePtr, TypeObject, primitive, array, func, kind_of, TypeStore, ptr_eq, deref, params_eq,
  objects_eq, type_eq,
}
use cact.Types.Shape.{
  Shape, void_shape, bool_shape, int_shape, float_shape, double_shape, array_shape, func_shape,
  Shapes, same_shape, same_shapes, depth, depths, Denotes, voids, bools, ints, floats, doubles,
  arrays, funcs, DenotesAll, none_left, one_more, IsReady, length-DenotesAll, same_shapes-count,
  shape_index, same_shape-index,
}

-- The object of a denoted type, seen from the type.
abbrev pub Fits : Shape → TypeObject → Type 0
Fits void_shape o = o ≡ primitive void_kind 0 0
Fits bool_shape o = o ≡ primitive bool_kind 1 1
Fits int_shape o = o ≡ primitive int_kind 4 4
Fits float_shape o = o ≡ primitive float_kind 4 4
Fits double_shape o = o ≡ primitive double_kind 8 8
Fits (array_shape t n) o = kind_of o ≡ array_kind
Fits (func_shape t ts) o = kind_of o ≡ func_kind

module _ {s : TypeStore} (ready : IsReady s) where
  pub object_of :
      {p : TypePtr} {t : Shape}
      → Denotes s p t
      → (o : TypeObject) × (deref s.heap p ≡ ok o) × Fits t o
  object_of (voids e) = (primitive void_kind 0 0, rw e ready.void_at, refl)
  object_of (bools e) = (primitive bool_kind 1 1, rw e ready.bool_at, refl)
  object_of (ints e) = (primitive int_kind 4 4, rw e ready.int_at, refl)
  object_of (floats e) = (primitive float_kind 4 4, rw e ready.float_at, refl)
  object_of (doubles e) = (primitive double_kind 8 8, rw e ready.double_at, refl)
  object_of (arrays {base} {len} {size} {align} e d) = (array base len size align, e, refl)
  object_of (funcs {ret} {params} {size} {align} e d ds) = (func ret params size align, e, refl)

  pub Fits-index :
      (t : Shape) (o : TypeObject) → Fits t o → typekind_index (kind_of o) ≡ shape_index t
  Fits-index void_shape o e = ap (λ x. typekind_index (kind_of x)) e
  Fits-index bool_shape o e = ap (λ x. typekind_index (kind_of x)) e
  Fits-index int_shape o e = ap (λ x. typekind_index (kind_of x)) e
  Fits-index float_shape o e = ap (λ x. typekind_index (kind_of x)) e
  Fits-index double_shape o e = ap (λ x. typekind_index (kind_of x)) e
  Fits-index (array_shape t n) o e = ap typekind_index e
  Fits-index (func_shape t ts) o e = ap typekind_index e

pub ptr_eq→eq : (a b : TypePtr) → ptr_eq a b ≡ true → a ≡ b
ptr_eq→eq none none h = refl
ptr_eq→eq (some a) (some b) h = ap some ((==_iff a b).0 h)
ptr_eq→eq none (some b) h = cc
ptr_eq→eq (some a) none h = cc

pub ptr_eq_refl : (a : TypePtr) → ptr_eq a a ≡ true
ptr_eq_refl none = refl
ptr_eq_refl (some a) = (==_iff a a).1 refl

module _ (heap : List (Option TypeObject)) (f : ℕ) where
  type_eq_same : (p : TypePtr) → type_eq (suc f) heap p p ≡ ok true
  unfolding type_eq
  type_eq_same p = rw (ptr_eq_refl p)

  -- Two pointers that differ, and the objects behind them.
  type_eq-objects_eq :
      (a b : TypePtr) (x y : TypeObject)
      → ptr_eq a b ≡ false
      → deref heap a ≡ ok x
      → deref heap b ≡ ok y
      → type_eq (suc f) heap a b ≡ (
          if not (typekind_index (kind_of x) == typekind_index (kind_of y))
          then ok false
          else objects_eq (type_eq f heap) x y)
  unfolding type_eq
  type_eq-objects_eq none b x y n dx dy = unfold deref in cc
  type_eq-objects_eq (some a) none x y n dx dy = unfold deref in cc
  type_eq-objects_eq (some a) (some b) x y n dx dy = rw (n, dx, dy)

differs {ℓ} : {A : Type ℓ} (p q : A) (m k : ℕ) → m ≢ k → (if not (m == k) then p else q) ≡ p
differs p q m k h = ground arith

same_at :
    (heap : List (Option TypeObject)) (f : ℕ) (p : TypePtr) → 0 < f → type_eq f heap p p ≡ ok true
same_at heap zero p h = elim h [ ]
same_at heap (suc f) p h = type_eq_same heap f p

ok-injective {ℓ} : {A : Type ℓ} {a b : A} → ok a ≡ ok b → a ≡ b
ok-injective e = cc

abbrev Agree : ℕ → List (Option TypeObject) → TypePtr → TypePtr → Shape → Shape → Type 0
Agree f heap a b t u = type_eq f heap a b ≡ ok (same_shape t u)

module _ {s : TypeStore} (ready : IsReady s) where
  -- Types of different kinds.
  other_kinds :
      {a b : TypePtr} {t u : Shape} (f : ℕ)
      → Denotes s a t
      → Denotes s b u
      → shape_index t ≢ shape_index u
      → Agree (suc f) s.heap a b t u
  other_kinds {a} {b} {t} {u} f da db n =
      let (x, dx, fx) = object_of ready da in
      let (y, dy, fy) = object_of ready db in
      let ix = Fits-index ready t x fx in
      let iy = Fits-index ready u y fy in
      elim (Bool-cases (ptr_eq a b)) [
        | inl e ↦ absurd (n (cc (ix, iy, dx, dy, ptr_eq→eq a b e)))
        | inr e ↦
            type_eq-objects_eq s.heap f a b x y e dx dy
            ∙ rw (ix, iy) (differs _ _ (shape_index t) (shape_index u) n)
            ∙ ap ok (sym (same_shape-index t u n))
      ]

  -- Two arrays, from their bases.
  array_pair :
      (a b : TypePtr) {base base' : TypePtr} {m n size align size' align' : ℕ} (t u : Shape) (f : ℕ)
      → 0 < f
      → deref s.heap a ≡ ok (array base m size align)
      → deref s.heap b ≡ ok (array base' n size' align')
      → Agree f s.heap base base' t u
      → Agree (suc f) s.heap a b (array_shape t m) (array_shape u n)
  unfolding same_shape objects_eq
  array_pair a b {base} {base'} {m} {n} t u f pos da db ih = elim (Bool-cases (ptr_eq a b)) [
    | inl e ↦
        let ab = ptr_eq→eq a b e in
        let bases : base ≡ base' = cc (ab, da, db) in
        let lens : m ≡ n = cc (ab, da, db) in
        let same : same_shape t u ≡ true =
          ok-injective (sym ih ∙ rw bases (same_at s.heap f base' pos)) in
        rw (ab, lens, same, (==_iff n n).1 refl) (type_eq_same s.heap f b)
    | inr e ↦
        type_eq-objects_eq s.heap f a b _ _ e da db
        ∙ elim (Bool-cases (m == n)) [ inl e' ↦ rw e' ih | inr e' ↦ rw e' refl ]
  ]

  params_same : (f : ℕ) (ps : List TypePtr) → 0 < f → params_eq (type_eq f s.heap) ps ps ≡ ok true
  unfolding params_eq
  params_same f [] h = refl
  params_same f (p ∷ ps) h = rw (same_at s.heap f p h) (params_same f ps h)

  AgreeAll : ℕ → List TypePtr → List TypePtr → Shapes → Shapes → Type 0
  AgreeAll f ps qs ts us =
      length ps ≡ length qs → params_eq (type_eq f s.heap) ps qs ≡ ok (same_shapes ts us)

  -- The parameter lists, with the test of their lengths.
  params_pair :
      {ps qs : List TypePtr} {ts us : Shapes} (f : ℕ)
      → DenotesAll s ps ts
      → DenotesAll s qs us
      → AgreeAll f ps qs ts us
      → (if not (length ps == length qs) then ok false else params_eq (type_eq f s.heap) ps qs)
        ≡ ok (same_shapes ts us)
  unfolding AgreeAll
  params_pair {ps} {qs} {ts} {us} f dp dq ih = elim (Bool-cases (length ps == length qs)) [
    | inl e ↦ rw e (ih ((==_iff _ _).0 e))
    | inr e ↦ rw e (
        ap ok (
          sym (
            same_shapes-count ts us (λ c. absurd (
              false-ne-true (
                sym e
                ∙ (==_iff (length ps) (length qs)).1
                    (length-DenotesAll dp ∙ c ∙ sym (length-DenotesAll dq))))))))
  ]

  func_pair :
      (a b : TypePtr) {ret ret' : TypePtr} {ps qs : List TypePtr} {size align size' align' : ℕ}
      (t u : Shape) (ts us : Shapes) (f : ℕ)
      → 0 < f
      → deref s.heap a ≡ ok (func ret ps size align)
      → deref s.heap b ≡ ok (func ret' qs size' align')
      → DenotesAll s ps ts
      → DenotesAll s qs us
      → Agree f s.heap ret ret' t u
      → AgreeAll f ps qs ts us
      → Agree (suc f) s.heap a b (func_shape t ts) (func_shape u us)
  unfolding same_shape objects_eq AgreeAll
  func_pair a b {ret} {ret'} {ps} {qs} t u ts us f pos da db dp dq ih ihs =
      elim (Bool-cases (ptr_eq a b)) [
        | inl e ↦
            let ab = ptr_eq→eq a b e in
            let rets : ret ≡ ret' = cc (ab, da, db) in
            let same : same_shape t u ≡ true =
              ok-injective (sym ih ∙ rw rets (same_at s.heap f ret' pos)) in
            let lists : ps ≡ qs = cc (ab, da, db) in
            let all : same_shapes ts us ≡ true =
              ok-injective (sym (ihs (ap length lists)) ∙ rw lists (params_same f qs pos)) in
            rw (ab, same, all) (type_eq_same s.heap f b)
        | inr e ↦
            type_eq-objects_eq s.heap f a b _ _ e da db
            ∙ rw ih (elim (Bool-cases (same_shape t u)) [
              | inl e' ↦ rw e' (params_pair f dp dq ihs)
              | inr e' ↦ rw e' refl
            ])
      ]

  mutual
    unfolding depth AgreeAll params_eq same_shape

    agree :
        {a b : TypePtr} {t u : Shape} (f : ℕ)
        → Denotes s a t
        → Denotes s b u
        → depth t < f
        → Agree f s.heap a b t u
    agree zero d d' h = absurd (omega arith)
    agree (suc f) (voids e) (voids e') h = rw (e, e') (type_eq_same s.heap f s.ty_void)
    agree (suc f) (bools e) (bools e') h = rw (e, e') (type_eq_same s.heap f s.ty_bool)
    agree (suc f) (ints e) (ints e') h = rw (e, e') (type_eq_same s.heap f s.ty_int)
    agree (suc f) (floats e) (floats e') h = rw (e, e') (type_eq_same s.heap f s.ty_float)
    agree (suc f) (doubles e) (doubles e') h = rw (e, e') (type_eq_same s.heap f s.ty_double)
    agree {a} {b} (suc f) (arrays {t} e d) (arrays {t = u} e' d') h =
        array_pair a b t u f (omega arith) e e' (agree f d d' (omega arith))
    agree {a} {b} (suc f) (funcs {t} {ts} e d ds) (funcs {t = u} {ts = us} e' d' ds') h =
        func_pair a b t u ts us f (omega arith) e e' ds ds' (agree f d d' (omega arith))
          (agree_all f ds ds' (omega arith))
    agree (suc f) d d' h = other_kinds f d d' (omega arith)

    agree_all :
        {ps qs : List TypePtr} {ts us : Shapes} (f : ℕ)
        → DenotesAll s ps ts
        → DenotesAll s qs us
        → depths ts < f
        → AgreeAll f ps qs ts us
    agree_all f none_left none_left h e = refl
    agree_all f none_left (one_more d ds) h e = absurd (omega arith)
    agree_all f (one_more d ds) none_left h e = absurd (omega arith)
    agree_all f (one_more {t} d ds) (one_more {t = u} d' ds') h e =
        rw (agree f d d' (omega arith)) (elim (Bool-cases (same_shape t u)) [
          | inl k ↦ rw k (agree_all f ds ds' (omega arith) (omega arith))
          | inr k ↦ rw k refl
        ])

  -- With fuel above the depth of one of two types, `type_eq` on pointers to them answers, and
  -- answers whether they are the same type.
  pub type_eq-same_shape :
      {a b : TypePtr} {t u : Shape} (f : ℕ)
      → Denotes s a t
      → Denotes s b u
      → depth t < f
      → type_eq f s.heap a b ≡ ok (same_shape t u)
  type_eq-same_shape = agree
