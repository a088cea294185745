-- ===== src/Copies/Methods.antt =====
-- DeepCopy and DeepCopyObject of api/v1alpha1/zz_generated.deepcopy.go, one for each type.
use kimo.Prelude.{Option, none, some}
use kimo.Copies.Memory.{Value, nil, Memory}
use kimo.Copies.Copiers.{Copier, copy_pointer}
use kimo.Copies.Declared.{Foreign}
use kimo.Copies.Kinds.{
  allow_rule_into, deny_rule_into, container_port_into, pow_spec_into, readiness_check_into,
  schedule_spec_into, resource_requirements_into, container_spec_into, instance_spec_into,
  instance_status_into, template_spec_into, template_status_into, set_spec_into, set_status_into,
  fence_spec_into, fence_status_into, instance_into, template_into, set_into, fence_into,
  instance_list_into, template_list_into, set_list_into, fence_list_into,
}

-- `if in == nil { return nil }; out := new(T); in.DeepCopyInto(out); return out`.
abbrev pub deep_copy : Copier → Copier
deep_copy into = copy_pointer into

unfoldable pub allow_rule_copy : Copier
allow_rule_copy = deep_copy allow_rule_into

unfoldable pub deny_rule_copy : Copier
deny_rule_copy = deep_copy deny_rule_into

unfoldable pub container_port_copy : Copier
container_port_copy = deep_copy container_port_into

unfoldable pub pow_spec_copy : Copier
pow_spec_copy = deep_copy pow_spec_into

unfoldable pub readiness_check_copy : Copier
readiness_check_copy = deep_copy readiness_check_into

unfoldable pub schedule_spec_copy : Copier
schedule_spec_copy = deep_copy schedule_spec_into

unfoldable pub instance_spec_copy : Copier
instance_spec_copy = deep_copy instance_spec_into

unfoldable pub template_status_copy : Copier
template_status_copy = deep_copy template_status_into

unfoldable pub set_spec_copy : Copier
set_spec_copy = deep_copy set_spec_into

unfoldable pub set_status_copy : Copier
set_status_copy = deep_copy set_status_into

unfoldable pub fence_spec_copy : Copier
fence_spec_copy = deep_copy fence_spec_into

unfoldable pub fence_status_copy : Copier
fence_status_copy = deep_copy fence_status_into

module _ (f : Foreign) where
  unfoldable pub resource_requirements_copy : Copier
  resource_requirements_copy = deep_copy (resource_requirements_into f)

  unfoldable pub container_spec_copy : Copier
  container_spec_copy = deep_copy (container_spec_into f)

  unfoldable pub instance_status_copy : Copier
  instance_status_copy = deep_copy (instance_status_into f)

  unfoldable pub template_spec_copy : Copier
  template_spec_copy = deep_copy (template_spec_into f)

  unfoldable pub challenge_instance_copy : Copier
  challenge_instance_copy = deep_copy (instance_into f)

  unfoldable pub challenge_template_copy : Copier
  challenge_template_copy = deep_copy (template_into f)

  unfoldable pub challenge_set_copy : Copier
  challenge_set_copy = deep_copy (set_into f)

  unfoldable pub network_fence_copy : Copier
  network_fence_copy = deep_copy (fence_into f)

  unfoldable pub instance_list_copy : Copier
  instance_list_copy = deep_copy (instance_list_into f)

  unfoldable pub template_list_copy : Copier
  template_list_copy = deep_copy (template_list_into f)

  unfoldable pub set_list_copy : Copier
  set_list_copy = deep_copy (set_list_into f)

  unfoldable pub fence_list_copy : Copier
  fence_list_copy = deep_copy (fence_list_into f)

abbrev object_of : Value → Option Value
object_of nil = none
object_of c = some c

-- `if c := in.DeepCopy(); c != nil { return c }; return nil`: no object, rather than one that is a nil
-- pointer.
abbrev pub ObjectCopier : Type 0
ObjectCopier = Value → Memory → Option Value × Memory

abbrev pub deep_copy_object : Copier → ObjectCopier
deep_copy_object copy v m = let (c, m') = copy v m in (object_of c, m')

module _ (f : Foreign) where
  unfoldable pub challenge_instance_object : ObjectCopier
  challenge_instance_object = deep_copy_object (challenge_instance_copy f)

  unfoldable pub challenge_template_object : ObjectCopier
  challenge_template_object = deep_copy_object (challenge_template_copy f)

  unfoldable pub challenge_set_object : ObjectCopier
  challenge_set_object = deep_copy_object (challenge_set_copy f)

  unfoldable pub network_fence_object : ObjectCopier
  network_fence_object = deep_copy_object (network_fence_copy f)

  unfoldable pub instance_list_object : ObjectCopier
  instance_list_object = deep_copy_object (instance_list_copy f)

  unfoldable pub template_list_object : ObjectCopier
  template_list_object = deep_copy_object (template_list_copy f)

  unfoldable pub set_list_object : ObjectCopier
  set_list_object = deep_copy_object (set_list_copy f)

  unfoldable pub fence_list_object : ObjectCopier
  fence_list_object = deep_copy_object (fence_list_copy f)
