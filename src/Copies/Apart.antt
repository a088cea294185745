-- ===== src/Copies/Apart.antt =====
-- DeepCopy and DeepCopyObject of api/v1alpha1/zz_generated.deepcopy.go share nothing with what they
-- copy.
use kimo.Prelude.{
  ℕ, ltb, leb, ◌&&◌, if◌then◌else◌, Option, none, some, ◌≡◌, refl, sym, ◌∙◌, subst, inl, inr, arith,
}
use kimo.Copies.Memory.{Value, nil, ref, Memory}
use kimo.Copies.Shape.{Shape, pointer, view, Owned, no_pointer, points, Agree, view-Agree}
use kimo.Copies.Copiers.{Copier, copy_pointer}
use kimo.Copies.Copied.{Copied, OwnedAs}
use kimo.Copies.Laws.{copy_pointer-IsDeep}
use kimo.Copies.Declared.{Foreign}
use kimo.Copies.Methods.{deep_copy, ObjectCopier, deep_copy_object}
use kimo.Copies.Selected.{copy_of, object_copy_of, copy_of-deep_copy, object_copy_of-cases}
use kimo.Copies.Generated.{Generated, shape_of, into_of}
use kimo.Copies.Deep.{IsDeepForeign, into-IsDeep}

-- Memory where anything was written, but not below `lo`.
abbrev pub written_from : ℕ → (ℕ → Value) → (ℕ → Value) → ℕ → Value
written_from lo written cells a = if ltb a lo then cells a else written a

-- Memory where anything was written, but not from `lo` on and below `hi`.
abbrev pub written_outside : ℕ → ℕ → (ℕ → Value) → (ℕ → Value) → ℕ → Value
written_outside lo hi written cells a = if leb lo a && ltb a hi then cells a else written a

-- The copy `x` of a pointer `v` to a value of the shape: its addresses are new, writes at addresses
-- that are not in memory before the copy leave the original as it was, and writes at addresses that
-- are not new leave the copy as the original was.
pub record Apart (t : Shape) (v : Value) (m : Memory) (x : Value × Memory) (written : ℕ → Value)
    : Type 0 where
  pub fresh : Owned m.next x.1.next x.1.cells (pointer t) x.0
  pub original :
      view (pointer t) (written_from m.next written x.1.cells) v ≡ view (pointer t) m.cells v
  pub copy :
      view (pointer t) (written_outside m.next x.1.next written x.1.cells) x.0
      ≡ view (pointer t) m.cells v

-- What DeepCopyObject of a type answers, where the type has it: no object for a nil pointer, and
-- otherwise the pointer that DeepCopy returns.
pub data ObjectCopied (v : Value) (m : Memory) (x : Value × Memory)
    : Option ObjectCopier → Type 0 where
  no_method : ObjectCopied v m x none
  no_object : (g : ObjectCopier) → v ≡ nil → g v m ≡ (none, m) → ObjectCopied v m x (some g)
  an_object :
      (g : ObjectCopier) (a : ℕ)
      → x.0 ≡ ref a
      → g v m ≡ (some (ref a), x.1)
      → ObjectCopied v m x (some g)

object_copied :
    (c : Copier) (t : Shape) (v : Value) (m : Memory)
    → Owned 0 m.next m.cells (pointer t) v
    → ObjectCopied v m (deep_copy c v m) (some (deep_copy_object (deep_copy c)))
unfolding copy_pointer
object_copied c t v m (no_pointer t') = no_object (deep_copy_object (deep_copy c)) refl refl
object_copied c t v m (points t' a l u h) =
    an_object (deep_copy_object (deep_copy c)) m.next refl refl

apart :
    (t : Shape) (v : Value) (m : Memory) (x : Value × Memory) (written : ℕ → Value)
    → Owned 0 m.next m.cells (pointer t) v
    → Copied (OwnedAs (pointer t)) (view (pointer t)) v m x
    → Apart t v m x written
apart t v m x written h one =
    let below : Agree 0 m.next m.cells (written_from m.next written x.1.cells) =
      λ a l u. ground (arith, one.keeps a l u) in
    let above : Agree m.next x.1.next x.1.cells
        (written_outside m.next x.1.next written x.1.cells) =
      λ a l u. ground arith in
    record {
      fresh = one.fresh;
      original = view-Agree below h;
      copy = view-Agree above one.fresh ∙ one.alike;
    }

-- DeepCopy of any generated type, called on nil or on a pointer to a value in memory, shares no
-- memory with the original, if the functions of the other packages make deep copies: all addresses
-- in the copy are new, the original reads as before the call whatever is then written at new
-- addresses, and the copy reads as the original did whatever is then written at other addresses.
-- DeepCopyObject of the types that have it answers no object for a nil pointer and the pointer of
-- DeepCopy otherwise.
pub copy_of-Apart :
    (f : Foreign)
    → IsDeepForeign f
    → (k : Generated) (v : Value) (m : Memory) (written : ℕ → Value)
    → Owned 0 m.next m.cells (pointer (shape_of f k)) v
    → Apart (shape_of f k) v m (copy_of f k v m) written
      × ObjectCopied v m (copy_of f k v m) (object_copy_of f k)
copy_of-Apart f deep k v m written h =
    let copied = (copy_pointer-IsDeep (into-IsDeep f deep k)).at v m h in
    let object = object_copied (into_of f k) (shape_of f k) v m h in
    subst
      (λ (c : Copier).
        Apart (shape_of f k) v m (c v m) written × ObjectCopied v m (c v m) (object_copy_of f k))
      (sym (copy_of-deep_copy f k))
      (
        apart (shape_of f k) v m (deep_copy (into_of f k) v m) written h copied,
        elim (object_copy_of-cases f k) [
          | inl e ↦ subst (ObjectCopied v m (deep_copy (into_of f k) v m)) (sym e) no_method
          | inr e ↦ subst (ObjectCopied v m (deep_copy (into_of f k) v m)) (sym e) object
        ],
      )
