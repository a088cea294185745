-- ===== src/Copies/Selected.antt =====
-- The functions of Copies/Methods by the type that has them.
use kimo.Prelude.{Option, none, some, ◌≡◌, refl, ◌⊎◌, inl, inr}
use kimo.Copies.Copiers.{Copier}
use kimo.Copies.Declared.{Foreign}
use kimo.Copies.Methods.{
  deep_copy, ObjectCopier, deep_copy_object, allow_rule_copy, deny_rule_copy, container_port_copy,
  pow_spec_copy, readiness_check_copy, schedule_spec_copy, resource_requirements_copy,
  container_spec_copy, instance_spec_copy, instance_status_copy, template_spec_copy,
  template_status_copy, set_spec_copy, set_status_copy, fence_spec_copy, fence_status_copy,
  challenge_instance_copy, challenge_template_copy, challenge_set_copy, network_fence_copy,
  instance_list_copy, template_list_copy, set_list_copy, fence_list_copy, challenge_instance_object,
  challenge_template_object, challenge_set_object, network_fence_object, instance_list_object,
  template_list_object, set_list_object, fence_list_object,
}
use kimo.Copies.Generated.{
  Generated, into_of, allow_rule, deny_rule, container_port, pow_spec, readiness_check,
  schedule_spec, resource_requirements, container_spec, instance_spec, instance_status,
  template_spec, template_status, set_spec, set_status, fence_spec, fence_status,
  challenge_instance, challenge_template, challenge_set, network_fence, instance_list,
  template_list, set_list, fence_list,
}

abbrev pub copy_of : Foreign → Generated → Copier
copy_of f allow_rule = allow_rule_copy
copy_of f deny_rule = deny_rule_copy
copy_of f container_port = container_port_copy
copy_of f pow_spec = pow_spec_copy
copy_of f readiness_check = readiness_check_copy
copy_of f schedule_spec = schedule_spec_copy
copy_of f resource_requirements = resource_requirements_copy f
copy_of f container_spec = container_spec_copy f
copy_of f instance_spec = instance_spec_copy
copy_of f instance_status = instance_status_copy f
copy_of f template_spec = template_spec_copy f
copy_of f template_status = template_status_copy
copy_of f set_spec = set_spec_copy
copy_of f set_status = set_status_copy
copy_of f fence_spec = fence_spec_copy
copy_of f fence_status = fence_status_copy
copy_of f challenge_instance = challenge_instance_copy f
copy_of f challenge_template = challenge_template_copy f
copy_of f challenge_set = challenge_set_copy f
copy_of f network_fence = network_fence_copy f
copy_of f instance_list = instance_list_copy f
copy_of f template_list = template_list_copy f
copy_of f set_list = set_list_copy f
copy_of f fence_list = fence_list_copy f

-- DeepCopyObject, for the types that have it.
abbrev pub object_copy_of : Foreign → Generated → Option ObjectCopier
object_copy_of f challenge_instance = some (challenge_instance_object f)
object_copy_of f challenge_template = some (challenge_template_object f)
object_copy_of f challenge_set = some (challenge_set_object f)
object_copy_of f network_fence = some (network_fence_object f)
object_copy_of f instance_list = some (instance_list_object f)
object_copy_of f template_list = some (template_list_object f)
object_copy_of f set_list = some (set_list_object f)
object_copy_of f fence_list = some (fence_list_object f)
object_copy_of f k = none

pub copy_of-deep_copy : (f : Foreign) (k : Generated) → copy_of f k ≡ deep_copy (into_of f k)
unfolding allow_rule_copy deny_rule_copy container_port_copy pow_spec_copy readiness_check_copy
    schedule_spec_copy resource_requirements_copy container_spec_copy instance_spec_copy
    instance_status_copy template_spec_copy template_status_copy set_spec_copy set_status_copy
    fence_spec_copy fence_status_copy challenge_instance_copy challenge_template_copy
    challenge_set_copy network_fence_copy instance_list_copy template_list_copy set_list_copy
    fence_list_copy
copy_of-deep_copy f allow_rule = refl
copy_of-deep_copy f deny_rule = refl
copy_of-deep_copy f container_port = refl
copy_of-deep_copy f pow_spec = refl
copy_of-deep_copy f readiness_check = refl
copy_of-deep_copy f schedule_spec = refl
copy_of-deep_copy f resource_requirements = refl
copy_of-deep_copy f container_spec = refl
copy_of-deep_copy f instance_spec = refl
copy_of-deep_copy f instance_status = refl
copy_of-deep_copy f template_spec = refl
copy_of-deep_copy f template_status = refl
copy_of-deep_copy f set_spec = refl
copy_of-deep_copy f set_status = refl
copy_of-deep_copy f fence_spec = refl
copy_of-deep_copy f fence_status = refl
copy_of-deep_copy f challenge_instance = refl
copy_of-deep_copy f challenge_template = refl
copy_of-deep_copy f challenge_set = refl
copy_of-deep_copy f network_fence = refl
copy_of-deep_copy f instance_list = refl
copy_of-deep_copy f template_list = refl
copy_of-deep_copy f set_list = refl
copy_of-deep_copy f fence_list = refl

pub object_copy_of-cases :
    (f : Foreign) (k : Generated)
    → (object_copy_of f k ≡ none)
      ⊎ (object_copy_of f k ≡ some (deep_copy_object (deep_copy (into_of f k))))
unfolding allow_rule_copy deny_rule_copy container_port_copy pow_spec_copy readiness_check_copy
    schedule_spec_copy resource_requirements_copy container_spec_copy instance_spec_copy
    instance_status_copy template_spec_copy template_status_copy set_spec_copy set_status_copy
    fence_spec_copy fence_status_copy challenge_instance_copy challenge_template_copy
    challenge_set_copy network_fence_copy instance_list_copy template_list_copy set_list_copy
    fence_list_copy challenge_instance_object challenge_template_object challenge_set_object
    network_fence_object instance_list_object template_list_object set_list_object fence_list_object
object_copy_of-cases f allow_rule = inl refl
object_copy_of-cases f deny_rule = inl refl
object_copy_of-cases f container_port = inl refl
object_copy_of-cases f pow_spec = inl refl
object_copy_of-cases f readiness_check = inl refl
object_copy_of-cases f schedule_spec = inl refl
object_copy_of-cases f resource_requirements = inl refl
object_copy_of-cases f container_spec = inl refl
object_copy_of-cases f instance_spec = inl refl
object_copy_of-cases f instance_status = inl refl
object_copy_of-cases f template_spec = inl refl
object_copy_of-cases f template_status = inl refl
object_copy_of-cases f set_spec = inl refl
object_copy_of-cases f set_status = inl refl
object_copy_of-cases f fence_spec = inl refl
object_copy_of-cases f fence_status = inl refl
object_copy_of-cases f challenge_instance = inr refl
object_copy_of-cases f challenge_template = inr refl
object_copy_of-cases f challenge_set = inr refl
object_copy_of-cases f network_fence = inr refl
object_copy_of-cases f instance_list = inr refl
object_copy_of-cases f template_list = inr refl
object_copy_of-cases f set_list = inr refl
object_copy_of-cases f fence_list = inr refl
