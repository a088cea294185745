-- ===== src/Copies/Copiers.antt =====
-- The statements that the functions of api/v1alpha1/zz_generated.deepcopy.go are made of. A copier
-- takes the value that `in` points to, and leaves the value that `*out` gets.
use kimo.Copies.Memory.{Value, nil, ref, both, Memory, reserve, write}

abbrev pub Copier : Type 0
Copier = Value → Memory → Value × Memory

-- `*out = *in`: the fields that no further statement copies.
unfoldable pub assign : Copier
assign v m = (v, m)

-- The copies of the fields of a struct, one after the other.
infixr 30 ◌▸◌
unfoldable pub ◌▸◌ : Copier → Copier → Copier
(c ▸ d) (both v w) m = let (v', m') = c v m in let (w', m'') = d w m' in (both v' w', m'')
(c ▸ d) v m = (v, m)

-- `if in.F != nil { *out = new(T); … }`, and so `DeepCopy` itself: nil for nil, and otherwise a new
-- variable with a copy of what the old one holds.
unfoldable pub copy_pointer : Copier → Copier
copy_pointer c (ref a) m =
    let (v, m') = c (m.cells a) (reserve m) in (ref m.next, write m' m.next v)
copy_pointer c v m = (v, m)

-- `if in.F != nil { *out = (*in).DeepCopy() }`.
unfoldable pub unless_nil : Copier → Copier
unless_nil c nil m = (nil, m)
unless_nil c v m = c v m

-- The loop over the elements, or `copy` where each is assigned.
unfoldable pub each : Copier → Copier
each c (both x xs) m = let (x', m') = c x m in let (xs', m'') = each c xs m' in (both x' xs', m'')
each c v m = (v, m)

-- `if in.F != nil { *out = make(…, len(*in)); for … }`, for a slice or a map.
unfoldable pub copy_slice : Copier → Copier
unfolding each
copy_slice c (ref a) m =
    let (v, m') = each c (m.cells a) (reserve m) in (ref m.next, write m' m.next v)
copy_slice c v m = (v, m)
