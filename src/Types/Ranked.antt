-- ===== src/Types/Ranked.antt =====
-- Arenas without cycles, in which `type_eq` comes to an end: the base of an array lies before it,
-- and functions take and return what is no function.
pub mod Kept
pub mod Push
use cact.Prelude.{
  ℕ, zero, suc, ◌+◌, ◌≤◌, ◌<◌, ◌≡◌, Bool, true, false, not, ◌||◌, Option, none, some, List, [], ◌∷◌,
  arith, ◌==◌, if◌then◌else◌, length, get_elem?, get_elem?-lt,
}
use cact.Outcome.{Outcome, fault, ok, Halts, Halts-bind}
use cact.Types.{
  typekind_index, TypePtr, TypeObject, primitive, array, func, kind_of, ptr_eq, is_null, found,
  deref, params_eq, objects_eq, type_eq,
}
use cact.Types.Store.{found-eq}

abbrev pub NotFunc : Option (Option TypeObject) → Type 0
NotFunc (some (some (func _ _ _ _))) = ⊥
NotFunc _ = Unit

-- NULL, or a pointer to an object before `n` that is no function.
abbrev pub Plain : List (Option TypeObject) → ℕ → TypePtr → Type 0
Plain heap n none = Unit
Plain heap n (some a) = (a < n) × NotFunc (get_elem? heap a)

abbrev pub PlainAll : List (Option TypeObject) → ℕ → List TypePtr → Type 0
PlainAll heap n [] = Unit
PlainAll heap n (p ∷ ps) = Plain heap n p × PlainAll heap n ps

-- What the object at the address `a` may point to.
abbrev pub Fine : List (Option TypeObject) → ℕ → Option (Option TypeObject) → Type 0
Fine heap a (some (some (array base len size align))) = Plain heap a base
Fine heap a (some (some (func ret params size align))) =
    Plain heap (length heap) ret × PlainAll heap (length heap) params
Fine heap a _ = Unit

abbrev pub Ranked : List (Option TypeObject) → Type 0
Ranked heap = (a : ℕ) → Fine heap a (get_elem? heap a)

-- A comparison halts at all that an object points to.
abbrev SafeAll : (TypePtr → TypePtr → Outcome Bool) → List TypePtr → Type 0
SafeAll same_type [] = Unit
SafeAll same_type (p ∷ ps) = ((q : TypePtr) → Halts (same_type p q)) × SafeAll same_type ps

abbrev Safe : (TypePtr → TypePtr → Outcome Bool) → TypeObject → Type 0
Safe same_type (primitive kind size align) = Unit
Safe same_type (array base len size align) = (q : TypePtr) → Halts (same_type base q)
Safe same_type (func ret params size align) =
    ((q : TypePtr) → Halts (same_type ret q)) × SafeAll same_type params

Halts-if {ℓ} :
    {A : Type ℓ} (b : Bool) (m n : Outcome A) → Halts m → Halts n → Halts (if b then m else n)
Halts-if true m n hm hn = hm
Halts-if false m n hm hn = hn

params_eq-Halts :
    (same_type : TypePtr → TypePtr → Outcome Bool) (ps qs : List TypePtr)
    → SafeAll same_type ps
    → Halts (params_eq same_type ps qs)
unfolding params_eq
params_eq-Halts same_type [] qs h = tt
params_eq-Halts same_type (p ∷ ps) [] h = tt
params_eq-Halts same_type (p ∷ ps) (q ∷ qs) (h, hs) = Halts-bind (same_type p q) _ (h q) λ same _.
    Halts-if same (params_eq same_type ps qs) (ok false) (params_eq-Halts same_type ps qs hs) tt

objects_eq-Halts :
    (same_type : TypePtr → TypePtr → Outcome Bool) (x y : TypeObject)
    → Safe same_type x
    → Halts (objects_eq same_type x y)
unfolding objects_eq
objects_eq-Halts same_type (array base len _ _) (array base' len' _ _) h =
    Halts-if (len == len') (same_type base base') (ok false) (h base') tt
objects_eq-Halts same_type (func ret ps _ _) (func ret' ps' _ _) (h, hs) =
    Halts-bind (same_type ret ret') _ (h ret') λ same _. Halts-if (not same) (ok false) _ tt (
      Halts-if (not (length ps == length ps')) (ok false) (params_eq same_type ps ps') tt
        (params_eq-Halts same_type ps ps' hs))
objects_eq-Halts same_type (array base len _ _) (primitive _ _ _) h = tt
objects_eq-Halts same_type (array base len _ _) (func _ _ _ _) h = tt
objects_eq-Halts same_type (func _ _ _ _) (primitive _ _ _) h = tt
objects_eq-Halts same_type (func _ _ _ _) (array _ _ _ _) h = tt
objects_eq-Halts same_type (primitive kind _ _) y h =
    Halts-if (typekind_index kind == 5 || typekind_index kind == 6) fault (ok false) tt tt

pub deref-Halts : (heap : List (Option TypeObject)) (p : TypePtr) → Halts (deref heap p)
unfolding deref
deref-Halts heap none = tt
deref-Halts heap (some a) = go (get_elem? heap a)
  where
    go : (o : Option (Option TypeObject)) → Halts (found o)
    go none = tt
    go (some none) = tt
    go (some (some ty)) = tt

pub object_at :
    (heap : List (Option TypeObject)) (a : ℕ) {x : TypeObject}
    → deref heap (some a) ≡ ok x
    → get_elem? heap a ≡ some (some x)
unfolding deref
object_at heap a e = found-eq (get_elem? heap a) e

null-Halts :
    (heap : List (Option TypeObject)) (f : ℕ) (b : TypePtr) → Halts (type_eq (suc f) heap none b)
unfolding type_eq
null-Halts heap f b = Halts-if (ptr_eq none b) (ok true) (ok false) tt tt

-- One level of a comparison, from the object behind the first pointer.
level-Halts :
    (heap : List (Option TypeObject)) (f i : ℕ) (b : TypePtr)
    → ((x : TypeObject) → get_elem? heap i ≡ some (some x) → Safe (type_eq f heap) x)
    → Halts (type_eq (suc f) heap (some i) b)
unfolding type_eq
level-Halts heap f i b safe = Halts-if (ptr_eq (some i) b) (ok true) _ tt (
    Halts-if (is_null b) (ok false) _ tt (
      Halts-bind (deref heap (some i)) _ (deref-Halts heap (some i)) λ x ex.
        Halts-bind (deref heap b) _ (deref-Halts heap b) λ y _.
          Halts-if (not (typekind_index (kind_of x) == typekind_index (kind_of y))) (ok false) _ tt
            (objects_eq-Halts (type_eq f heap) x y (safe x (object_at heap i ex)))))

SafeAll-Plain :
    (heap : List (Option TypeObject)) (n : ℕ) (same_type : TypePtr → TypePtr → Outcome Bool)
    (ps : List TypePtr)
    → ((p q : TypePtr) → Plain heap n p → Halts (same_type p q))
    → PlainAll heap n ps
    → SafeAll same_type ps
SafeAll-Plain heap n same_type [] h hs = tt
SafeAll-Plain heap n same_type (p ∷ ps) h (k, ks) =
    (λ q. h p q k, SafeAll-Plain heap n same_type ps h ks)

Safe-Plain :
    (heap : List (Option TypeObject)) (i : ℕ) (same_type : TypePtr → TypePtr → Outcome Bool)
    (x : TypeObject)
    → NotFunc (some (some x))
    → Fine heap i (some (some x))
    → ((p q : TypePtr) → Plain heap i p → Halts (same_type p q))
    → Safe same_type x
Safe-Plain heap i same_type (primitive _ _ _) nf fine h = tt
Safe-Plain heap i same_type (array base _ _ _) nf fine h = λ q. h base q fine
Safe-Plain heap i same_type (func _ _ _ _) nf fine h = absurd nf

Safe-any :
    (heap : List (Option TypeObject)) (i : ℕ) (same_type : TypePtr → TypePtr → Outcome Bool)
    (x : TypeObject)
    → i ≤ length heap
    → Fine heap i (some (some x))
    → ((n : ℕ) (p q : TypePtr) → n ≤ length heap → Plain heap n p → Halts (same_type p q))
    → Safe same_type x
Safe-any heap i same_type (primitive _ _ _) k fine h = tt
Safe-any heap i same_type (array base _ _ _) k fine h = λ q. h i base q k fine
Safe-any heap i same_type (func ret ps _ _) k (fr, fs) h = (
  λ q. h (length heap) ret q (omega arith) fr,
  SafeAll-Plain heap (length heap) same_type ps (λ p q. h (length heap) p q (omega arith)) fs,
)

module _ (heap : List (Option TypeObject)) (ranked : Ranked heap) where
  -- The comparison of what is no function.
  Plain-Halts : (f n : ℕ) (a b : TypePtr) → Plain heap n a → n < f → Halts (type_eq f heap a b)
  Plain-Halts zero n a b h k = absurd (omega arith)
  Plain-Halts (suc f) n none b h k = null-Halts heap f b
  Plain-Halts (suc f) n (some i) b (lt', nf) k = level-Halts heap f i b λ x g.
      Safe-Plain heap i (type_eq f heap) x (rw g at nf) (rw g at (ranked i))
        λ p q h. Plain-Halts f i p q h (omega arith)

  -- In an arena without cycles the comparison of any two pointers comes to an end, with fuel for two
  -- levels more than there are objects.
  pub type_eq-Halts : (f : ℕ) (a b : TypePtr) → length heap + 1 < f → Halts (type_eq f heap a b)
  type_eq-Halts zero a b k = absurd (omega arith)
  type_eq-Halts (suc f) none b k = null-Halts heap f b
  type_eq-Halts (suc f) (some i) b k = level-Halts heap f i b λ x g.
      Safe-any heap i (type_eq f heap) x (omega (arith, get_elem?-lt heap i g)) (rw g at (ranked i))
        λ n p q j h. Plain-Halts f n p q h (omega arith)
