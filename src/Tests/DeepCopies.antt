-- ===== src/Tests/DeepCopies.antt =====
-- The theorem on deep copies, at a concrete instance.
use kimo.Prelude.{ℕ, zero, suc, some, ◌≡◌, refl, [], ◌∷◌, map, arith}
use kimo.Copies.Memory.{Value, scalar, nil, ref, both, Memory}
use kimo.Copies.Shape.{
  plain, pointer, slice, ◌▹◌, Owned, plainly, no_pointer, points, lists, fields, no_more, item,
}
use kimo.Copies.Copiers.{assign, ◌▸◌, copy_pointer, copy_slice, each, unless_nil}
use kimo.Copies.Laws.{assign-IsDeep, copy_pointer-IsDeep, copy_slice-IsDeep, ◌and◌}
use kimo.Copies.Declared.{Foreign, challenge_instance_shape}
use kimo.Copies.Kinds.{instance_into, instance_status_into}
use kimo.Copies.Generated.{challenge_instance}
use kimo.Copies.Deep.{IsDeepForeign}
use kimo.Copies.Apart.{Apart, ObjectCopied, copy_of-Apart}
use kimo.Copies.Methods.{challenge_instance_copy, challenge_instance_object}

-- Metadata as its labels, and a variable with a pointer to where its value is from.
abbrev packages : Foreign
packages = record {
  object_meta = slice (plain ▹ plain);
  list_meta = plain;
  env_var = plain ▹ pointer plain;
  quantity = plain;
  time = plain;
  object_meta_into = copy_slice (assign ▸ assign);
  list_meta_into = assign;
  env_var_into = assign ▸ copy_pointer assign;
  quantity_copy = assign;
  time_copy = copy_pointer assign;
}

packages-IsDeepForeign : IsDeepForeign packages
packages-IsDeepForeign = record {
  object_meta_into = copy_slice-IsDeep (assign-IsDeep and assign-IsDeep);
  list_meta_into = assign-IsDeep;
  env_var_into = assign-IsDeep and copy_pointer-IsDeep assign-IsDeep;
  quantity_copy = assign-IsDeep;
  time_copy = copy_pointer-IsDeep assign-IsDeep;
}

-- An instance that has started and does not expire yet.
abbrev stored_status : ℕ → Value
stored_status started = both (scalar "Running") (
    both (scalar "") (
      both (scalar "svc")
        (both (ref started) (both nil (both (scalar "pod") (both (scalar "0") (scalar "")))))))

abbrev stored : ℕ → ℕ → Value
stored labels started =
    both (scalar "ChallengeInstance")
      (both (ref labels) (both (scalar "web") (stored_status started)))

abbrev labels : Value
labels = both (both (scalar "team") (scalar "red")) nil

abbrev cells : ℕ → Value
cells zero = stored 1 2
cells (suc zero) = labels
cells (suc (suc zero)) = scalar "12:00"
cells _ = nil

abbrev memory : Memory
memory = record { next = 3; cells = cells }

stored-Owned : Owned 0 3 cells (pointer (challenge_instance_shape packages)) (ref 0)
stored-Owned = points (challenge_instance_shape packages) 0 (omega arith) (omega arith) (
    fields (plainly "ChallengeInstance") (
      fields
        (lists (plain ▹ plain) 1 (omega arith) (omega arith)
          (item (fields (plainly "team") (plainly "red")) (no_more (plain ▹ plain))))
        (fields (plainly "web") (
          fields (plainly "Running") (
            fields (plainly "") (
              fields (plainly "svc") (
                fields (points plain 2 (omega arith) (omega arith) (plainly "12:00")) (
                  fields (no_pointer plain)
                    (fields (plainly "pod") (fields (plainly "0") (plainly "")))))))))))

abbrev anything : ℕ → Value
anything a = scalar "overwritten"

copy_of-Apart_example :
    Apart
      (challenge_instance_shape packages)
      (ref 0)
      memory
      (challenge_instance_copy packages (ref 0) memory)
      anything
    × ObjectCopied
        (ref 0)
        memory
        (challenge_instance_copy packages (ref 0) memory)
        (some (challenge_instance_object packages))
copy_of-Apart_example =
    copy_of-Apart packages packages-IsDeepForeign challenge_instance (ref 0) memory anything
      stored-Owned

-- The copy is at the first free address, its labels and its start time behind it.
abbrev copied : Value × Memory
copied = challenge_instance_copy packages (ref 0) memory

copied_ref : copied.0 ≡ ref 3
unfolding challenge_instance_copy copy_pointer
copied_ref = refl

copied_cells : map copied.1.cells (3 ∷ 4 ∷ 5 ∷ []) ≡ stored 4 5 ∷ labels ∷ scalar "12:00" ∷ []
unfolding challenge_instance_copy copy_pointer instance_into ◌▸◌ assign copy_slice each
    instance_status_into unless_nil
copied_cells = refl
