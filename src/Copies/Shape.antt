-- ===== src/Copies/Shape.antt =====
-- The types of the custom resources as far as pointers go: what a value looks like when it is read
-- through its pointers, and which addresses it owns.
use kimo.Prelude.{ℕ, ◌≤◌, ◌<◌, String, ◌≡◌, refl, sym, ap, ◌∙◌, subst, arith}
use mathlib.Core.Path.{ap₂}
use kimo.Copies.Memory.{Value, scalar, nil, ref, both}

infixr 30 ◌▹◌
pub data Shape : Type 0 where
  plain : Shape
  pointer : Shape → Shape
  slice : Shape → Shape
  ◌▹◌ : Shape → Shape → Shape

-- A value with its pointers read.
pub data Tree : Type 0 where
  leaf : Value → Tree
  absent : Tree
  box : Tree → Tree
  node : Tree → Tree → Tree

abbrev pub views : (Value → Tree) → Value → Tree
views f (both x xs) = node (f x) (views f xs)
views f _ = absent

abbrev pub view : Shape → (ℕ → Value) → Value → Tree
view plain cells v = leaf v
view (pointer t) cells (ref a) = box (view t cells (cells a))
view (pointer t) cells _ = absent
view (slice t) cells (ref a) = box (views (view t cells) (cells a))
view (slice t) cells _ = absent
view (t ▹ u) cells (both v w) = node (view t cells v) (view u cells w)
view (t ▹ u) cells _ = absent

-- The value has the shape, and each address in it is from `lo` on and below `hi`.
mutual
  pub data Owned (lo hi : ℕ) (cells : ℕ → Value) : Shape → Value → Type 0 where
    plainly : (s : String) → Owned lo hi cells plain (scalar s)
    no_pointer : (t : Shape) → Owned lo hi cells (pointer t) nil
    points :
        (t : Shape) (a : ℕ)
        → lo ≤ a
        → a < hi
        → Owned lo hi cells t (cells a)
        → Owned lo hi cells (pointer t) (ref a)
    no_slice : (t : Shape) → Owned lo hi cells (slice t) nil
    lists :
        (t : Shape) (a : ℕ)
        → lo ≤ a
        → a < hi
        → Items lo hi cells t (cells a)
        → Owned lo hi cells (slice t) (ref a)
    fields :
        {t u : Shape} {v w : Value}
        → Owned lo hi cells t v
        → Owned lo hi cells u w
        → Owned lo hi cells (t ▹ u) (both v w)

  pub data Items (lo hi : ℕ) (cells : ℕ → Value) : Shape → Value → Type 0 where
    no_more : (t : Shape) → Items lo hi cells t nil
    item :
        {t : Shape} {v w : Value}
        → Owned lo hi cells t v
        → Items lo hi cells t w
        → Items lo hi cells t (both v w)

-- The same cells at the addresses from `lo` on and below `hi`.
abbrev pub Agree : ℕ → ℕ → (ℕ → Value) → (ℕ → Value) → Type 0
Agree lo hi cells cells' = (a : ℕ) → lo ≤ a → a < hi → cells' a ≡ cells a

module _ {lo hi lo' hi' : ℕ} {cells : ℕ → Value} (lower : lo' ≤ lo) (higher : hi ≤ hi') where
  mutual
    pub Owned-widen : {t : Shape} {v : Value} → Owned lo hi cells t v → Owned lo' hi' cells t v
    Owned-widen (plainly s) = plainly s
    Owned-widen (no_pointer t) = no_pointer t
    Owned-widen (points t a above below h) = points t a (omega arith) (omega arith) (Owned-widen h)
    Owned-widen (no_slice t) = no_slice t
    Owned-widen (lists t a above below h) = lists t a (omega arith) (omega arith) (Items-widen h)
    Owned-widen (fields h k) = fields (Owned-widen h) (Owned-widen k)

    pub Items-widen : {t : Shape} {v : Value} → Items lo hi cells t v → Items lo' hi' cells t v
    Items-widen (no_more t) = no_more t
    Items-widen (item h k) = item (Owned-widen h) (Items-widen k)

module _ {lo hi : ℕ} {cells cells' : ℕ → Value} (same : Agree lo hi cells cells') where
  mutual
    pub Owned-Agree : {t : Shape} {v : Value} → Owned lo hi cells t v → Owned lo hi cells' t v
    Owned-Agree (plainly s) = plainly s
    Owned-Agree (no_pointer t) = no_pointer t
    Owned-Agree (points t a above below h) =
        points t a above below
          (subst (Owned lo hi cells' t) (sym (same a above below)) (Owned-Agree h))
    Owned-Agree (no_slice t) = no_slice t
    Owned-Agree (lists t a above below h) =
        lists t a above below
          (subst (Items lo hi cells' t) (sym (same a above below)) (Items-Agree h))
    Owned-Agree (fields h k) = fields (Owned-Agree h) (Owned-Agree k)

    pub Items-Agree : {t : Shape} {v : Value} → Items lo hi cells t v → Items lo hi cells' t v
    Items-Agree (no_more t) = no_more t
    Items-Agree (item h k) = item (Owned-Agree h) (Items-Agree k)

  mutual
    pub view-Agree :
        {t : Shape} {v : Value} → Owned lo hi cells t v → view t cells' v ≡ view t cells v
    view-Agree (plainly s) = refl
    view-Agree (no_pointer t) = refl
    view-Agree (points t a above below h) =
        ap box (ap (view t cells') (same a above below) ∙ view-Agree h)
    view-Agree (no_slice t) = refl
    view-Agree (lists t a above below h) =
        ap box (ap (views (view t cells')) (same a above below) ∙ views-Agree h)
    view-Agree (fields h k) = ap₂ node (view-Agree h) (view-Agree k)

    pub views-Agree :
        {t : Shape} {v : Value}
        → Items lo hi cells t v
        → views (view t cells') v ≡ views (view t cells) v
    views-Agree (no_more t) = refl
    views-Agree (item h k) = ap₂ node (view-Agree h) (views-Agree k)
