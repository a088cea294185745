-- ===== src/Copies/Copied.antt =====
-- What a copy is, and how copies of parts go together, for api/v1alpha1/zz_generated.deepcopy.go.
use kimo.Prelude.{refl, ℕ, suc, ◌≤◌, ◌<◌, ◌≡◌, ap, ◌∙◌, sym, subst, arith}
use kimo.Copies.Memory.{Value, Memory, reserve, write}
use kimo.Copies.Shape.{
  Shape, Tree, view, views, Owned, Items, Agree, Owned-widen, Items-widen, Owned-Agree, Items-Agree,
  view-Agree, views-Agree,
}

-- A copy of a value: memory only grows, what was there stays, the addresses of the copy are all
-- new, and the copy reads as the value does.
pub record Copied (O : ℕ → ℕ → (ℕ → Value) → Value → Type 0) (seen : (ℕ → Value) → Value → Tree)
    (v : Value) (m : Memory) (x : Value × Memory) : Type 0 where
  pub grows : m.next ≤ x.1.next
  pub keeps : Agree 0 m.next m.cells x.1.cells
  pub fresh : O m.next x.1.next x.1.cells x.0
  pub alike : seen x.1.cells x.0 ≡ seen m.cells v

abbrev pub OwnedAs : Shape → ℕ → ℕ → (ℕ → Value) → Value → Type 0
OwnedAs t lo hi cells v = Owned lo hi cells t v

abbrev pub ItemsAs : Shape → ℕ → ℕ → (ℕ → Value) → Value → Type 0
ItemsAs t lo hi cells v = Items lo hi cells t v

abbrev pub views_as : Shape → (ℕ → Value) → Value → Tree
views_as t cells = views (view t cells)

-- A value that is copied as it is, and owns no address.
pub unchanged :
    {O : ℕ → ℕ → (ℕ → Value) → Value → Type 0} {seen : (ℕ → Value) → Value → Tree} {v : Value}
    {m : Memory}
    → O m.next m.next m.cells v
    → Copied O seen v m (v, m)
unchanged h = record { grows = omega arith; keeps = λ a l u. refl; fresh = h; alike = refl }

-- What the two ways to own addresses share.
pub record IsLawful (O : ℕ → ℕ → (ℕ → Value) → Value → Type 0) (seen : (ℕ → Value) → Value → Tree)
    : Type 0 where
  pub widen :
      (lo hi lo' hi' : ℕ) (cells : ℕ → Value) (v : Value)
      → lo' ≤ lo
      → hi ≤ hi'
      → O lo hi cells v
      → O lo' hi' cells v
  pub agree :
      (lo hi : ℕ) (cells cells' : ℕ → Value) (v : Value)
      → Agree lo hi cells cells'
      → O lo hi cells v
      → (O lo hi cells' v) × (seen cells' v ≡ seen cells v)

pub OwnedAs-IsLawful : (t : Shape) → IsLawful (OwnedAs t) (view t)
OwnedAs-IsLawful t = record {
  widen = λ lo hi lo' hi' cells v l u h. Owned-widen l u h;
  agree = λ lo hi cells cells' v same h. (Owned-Agree same h, view-Agree same h);
}

pub ItemsAs-IsLawful : (t : Shape) → IsLawful (ItemsAs t) (views_as t)
ItemsAs-IsLawful t = record {
  widen = λ lo hi lo' hi' cells v l u h. Items-widen l u h;
  agree = λ lo hi cells cells' v same h. (Items-Agree same h, views-Agree same h);
}

module _ {O P : ℕ → ℕ → (ℕ → Value) → Value → Type 0} {seen seen' : (ℕ → Value) → Value → Tree}
    (k : IsLawful O seen) (k' : IsLawful P seen') where
  -- Two copies in a row, the second of another part of the value.
  pub record Both (v w : Value) (m : Memory) (v' w' : Value) (m' : Memory) : Type 0 where
    pub grows : m.next ≤ m'.next
    pub keeps : Agree 0 m.next m.cells m'.cells
    pub first : O m.next m'.next m'.cells v'
    pub second : P m.next m'.next m'.cells w'
    pub alike : seen m'.cells v' ≡ seen m.cells v
    pub alike' : seen' m'.cells w' ≡ seen' m.cells w

  pub in_a_row :
      (v w : Value) (m : Memory) (x y : Value × Memory)
      → P 0 m.next m.cells w
      → Copied O seen v m x
      → (P 0 x.1.next x.1.cells w → Copied P seen' w x.1 y)
      → Both v w m x.0 y.0 y.1
  in_a_row v w m x y h one next =
      let (moved, looks) = k'.agree 0 m.next m.cells x.1.cells w one.keeps h in
      let two = next (k'.widen 0 m.next 0 x.1.next x.1.cells w (omega arith) one.grows moved) in
      let above : Agree m.next x.1.next x.1.cells y.1.cells =
        λ a l u. two.keeps a (omega arith) u in
      let (stays, seen_still) = k.agree m.next x.1.next x.1.cells y.1.cells x.0 above one.fresh in
      record {
        grows = omega (arith, one.grows, two.grows);
        keeps = λ a l u. two.keeps a l (omega (arith, one.grows)) ∙ one.keeps a l u;
        first = k.widen m.next x.1.next m.next y.1.next y.1.cells x.0 (omega arith) two.grows stays;
        second =
            k'.widen x.1.next y.1.next m.next y.1.next y.1.cells y.0 one.grows (omega arith)
              two.fresh;
        alike = seen_still ∙ one.alike;
        alike' = two.alike ∙ looks;
      }

module _ {O : ℕ → ℕ → (ℕ → Value) → Value → Type 0} {seen : (ℕ → Value) → Value → Tree}
    (k : IsLawful O seen) where
  -- A new variable that gets a copy of what is at an address.
  pub record Placed (a : ℕ) (m m' : Memory) : Type 0 where
    pub grows : m.next ≤ m'.next
    pub keeps : Agree 0 m.next m.cells m'.cells
    pub below : m.next < m'.next
    pub content : O m.next m'.next m'.cells (m'.cells m.next)
    pub alike : seen m'.cells (m'.cells m.next) ≡ seen m.cells (m.cells a)

  pub placed :
      (a : ℕ) (m : Memory) (y : Value × Memory)
      → Copied O seen (m.cells a) (reserve m) y
      → Placed a m (write y.1 m.next y.0)
  placed a m y one =
      let m' = write y.1 m.next y.0 in
      let written : m'.cells m.next ≡ y.0 = ground arith in
      let others : Agree (suc m.next) y.1.next y.1.cells m'.cells = λ b l u. ground arith in
      let (stays, looks) = k.agree (suc m.next) y.1.next y.1.cells m'.cells y.0 others one.fresh in
      record {
        grows = omega (arith, one.grows);
        keeps = λ b l u. ground (arith, one.keeps b l (omega arith));
        below = omega (arith, one.grows);
        content = subst (O m.next y.1.next m'.cells) (sym written) (
            k.widen (suc m.next) y.1.next m.next y.1.next m'.cells y.0 (omega arith) (omega arith)
              stays);
        alike = ap (seen m'.cells) written ∙ looks ∙ one.alike;
      }
