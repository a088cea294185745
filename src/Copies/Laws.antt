-- ===== src/Copies/Laws.antt =====
-- The statements of api/v1alpha1/zz_generated.deepcopy.go make deep copies.
use kimo.Prelude.{ℕ, ap, arith}
use mathlib.Core.Path.{ap₂}
use kimo.Copies.Memory.{Value, scalar, nil, ref, both, Memory, reserve}
use kimo.Copies.Shape.{
  Shape, plain, pointer, slice, ◌▹◌, box, node, view, Owned, plainly, no_pointer, points, no_slice,
  lists, fields, Items, no_more, item, Owned-widen, Items-widen,
}
use kimo.Copies.Copiers.{Copier, assign, ◌▸◌, unless_nil, copy_pointer, each, copy_slice}
use kimo.Copies.Copied.{
  unchanged, Copied, OwnedAs, ItemsAs, views_as, OwnedAs-IsLawful, ItemsAs-IsLawful, in_a_row,
  placed,
}

-- A copier of values of a shape, whatever they hold and wherever they point.
pub record IsDeep (c : Copier) (t : Shape) : Type 0 where
  pub at :
      (v : Value) (m : Memory)
      → Owned 0 m.next m.cells t v
      → Copied (OwnedAs t) (view t) v m (c v m)

plain_anywhere :
    {lo hi lo' hi' : ℕ} {cells cells' : ℕ → Value} {v : Value}
    → Owned lo hi cells plain v
    → Owned lo' hi' cells' plain v
plain_anywhere (plainly s) = plainly s

pub assign-IsDeep : IsDeep assign plain
unfolding assign
assign-IsDeep = record { at = λ v m h. unchanged (plain_anywhere h) }

pub unless_nil-IsDeep :
    {c : Copier} {t : Shape} → IsDeep c (pointer t) → IsDeep (unless_nil c) (pointer t)
unfolding unless_nil
unless_nil-IsDeep {c} {t} deep = record { at = copies }
  where
    copies :
        (v : Value) (m : Memory)
        → Owned 0 m.next m.cells (pointer t) v
        → Copied (OwnedAs (pointer t)) (view (pointer t)) v m (unless_nil c v m)
    copies v m (no_pointer t') = unchanged (no_pointer t)
    copies v m (points t' a l u h) = deep.at (ref a) m (points t a l u h)

pub copy_pointer-IsDeep :
    {c : Copier} {t : Shape} → IsDeep c t → IsDeep (copy_pointer c) (pointer t)
unfolding copy_pointer
copy_pointer-IsDeep {c} {t} deep = record { at = copies }
  where
    copies :
        (v : Value) (m : Memory)
        → Owned 0 m.next m.cells (pointer t) v
        → Copied (OwnedAs (pointer t)) (view (pointer t)) v m (copy_pointer c v m)
    copies v m (no_pointer t') = unchanged (no_pointer t)
    copies v m (points t' a l u h) =
        let p =
          placed (OwnedAs-IsLawful t) a m (c (m.cells a) (reserve m))
            (deep.at (m.cells a) (reserve m) (Owned-widen (omega arith) (omega arith) h)) in
        record {
          grows = p.grows;
          keeps = p.keeps;
          fresh = points t m.next (omega arith) p.below p.content;
          alike = ap box p.alike;
        }

each-IsDeep :
    (c : Copier) (t : Shape)
    → IsDeep c t
    → (v : Value) (m : Memory) → Items 0 m.next m.cells t v
    → Copied (ItemsAs t) (views_as t) v m (each c v m)
unfolding each
each-IsDeep c t deep (scalar s) m h = elim h [ ]
each-IsDeep c t deep (ref a) m h = elim h [ ]
each-IsDeep c t deep nil m h = unchanged (no_more t)
each-IsDeep c t deep (both x xs) m (item h hs) =
    let r =
      in_a_row (OwnedAs-IsLawful t) (ItemsAs-IsLawful t) x xs m (c x m) (each c xs (c x m).1) hs
        (deep.at x m h) (each-IsDeep c t deep xs (c x m).1) in
    record {
      grows = r.grows;
      keeps = r.keeps;
      fresh = item r.first r.second;
      alike = ap₂ node r.alike r.alike';
    }

pub copy_slice-IsDeep : {c : Copier} {t : Shape} → IsDeep c t → IsDeep (copy_slice c) (slice t)
unfolding copy_slice
copy_slice-IsDeep {c} {t} deep = record { at = copies }
  where
    copies :
        (v : Value) (m : Memory)
        → Owned 0 m.next m.cells (slice t) v
        → Copied (OwnedAs (slice t)) (view (slice t)) v m (copy_slice c v m)
    copies v m (no_slice t') = unchanged (no_slice t)
    copies v m (lists t' a l u h) =
        let p = placed (ItemsAs-IsLawful t) a m (each c (m.cells a) (reserve m)) (
          each-IsDeep c t deep (m.cells a) (reserve m)
            (Items-widen (omega arith) (omega arith) h)) in
        record {
          grows = p.grows;
          keeps = p.keeps;
          fresh = lists t m.next (omega arith) p.below p.content;
          alike = ap box p.alike;
        }

pub fields-IsDeep : {c d : Copier} {t u : Shape} → IsDeep c t → IsDeep d u → IsDeep (c ▸ d) (t ▹ u)
unfolding ◌▸◌
fields-IsDeep {c} {d} {t} {u} deep deep' = record { at = copies }
  where
    copies :
        (v : Value) (m : Memory)
        → Owned 0 m.next m.cells (t ▹ u) v
        → Copied (OwnedAs (t ▹ u)) (view (t ▹ u)) v m ((c ▸ d) v m)
    copies v m (fields {v = x} {w = y} h k) =
        let r =
          in_a_row (OwnedAs-IsLawful t) (OwnedAs-IsLawful u) x y m (c x m) (d y (c x m).1) k
            (deep.at x m h) (deep'.at y (c x m).1) in
        record {
          grows = r.grows;
          keeps = r.keeps;
          fresh = fields r.first r.second;
          alike = ap₂ node r.alike r.alike';
        }

-- The same, as an operator.
infixr 30 ◌and◌
abbrev pub ◌and◌ : {c d : Copier} {t u : Shape} → IsDeep c t → IsDeep d u → IsDeep (c ▸ d) (t ▹ u)
h and k = fields-IsDeep h k
