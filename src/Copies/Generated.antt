-- ===== src/Copies/Generated.antt =====
-- The types of api/v1alpha1 that have generated functions, with their declarations and DeepCopyInto.
use kimo.Copies.Shape.{Shape, plain}
use kimo.Copies.Copiers.{Copier}
use kimo.Copies.Declared.{
  Foreign, resource_requirements_shape, container_spec_shape, template_spec_shape,
  challenge_template_shape, set_spec_shape, challenge_set_shape, fence_spec_shape,
  network_fence_shape, instance_status_shape, challenge_instance_shape, list_of,
}
use kimo.Copies.Kinds.{
  allow_rule_into, deny_rule_into, container_port_into, pow_spec_into, readiness_check_into,
  schedule_spec_into, resource_requirements_into, container_spec_into, instance_spec_into,
  instance_status_into, template_spec_into, template_status_into, set_spec_into, set_status_into,
  fence_spec_into, fence_status_into, instance_into, template_into, set_into, fence_into,
  instance_list_into, template_list_into, set_list_into, fence_list_into,
}

-- The types that have the generated functions.
pub data Generated : Type 0 where
  allow_rule : Generated
  deny_rule : Generated
  container_port : Generated
  pow_spec : Generated
  readiness_check : Generated
  schedule_spec : Generated
  resource_requirements : Generated
  container_spec : Generated
  instance_spec : Generated
  instance_status : Generated
  template_spec : Generated
  template_status : Generated
  set_spec : Generated
  set_status : Generated
  fence_spec : Generated
  fence_status : Generated
  challenge_instance : Generated
  challenge_template : Generated
  challenge_set : Generated
  network_fence : Generated
  instance_list : Generated
  template_list : Generated
  set_list : Generated
  fence_list : Generated

abbrev pub shape_of : Foreign → Generated → Shape
shape_of f allow_rule = plain
shape_of f deny_rule = plain
shape_of f container_port = plain
shape_of f pow_spec = plain
shape_of f readiness_check = plain
shape_of f schedule_spec = plain
shape_of f resource_requirements = resource_requirements_shape f
shape_of f container_spec = container_spec_shape f
shape_of f instance_spec = plain
shape_of f instance_status = instance_status_shape f
shape_of f template_spec = template_spec_shape f
shape_of f template_status = plain
shape_of f set_spec = set_spec_shape f
shape_of f set_status = plain
shape_of f fence_spec = fence_spec_shape f
shape_of f fence_status = plain
shape_of f challenge_instance = challenge_instance_shape f
shape_of f challenge_template = challenge_template_shape f
shape_of f challenge_set = challenge_set_shape f
shape_of f network_fence = network_fence_shape f
shape_of f instance_list = list_of f (challenge_instance_shape f)
shape_of f template_list = list_of f (challenge_template_shape f)
shape_of f set_list = list_of f (challenge_set_shape f)
shape_of f fence_list = list_of f (network_fence_shape f)

abbrev pub into_of : Foreign → Generated → Copier
into_of f allow_rule = allow_rule_into
into_of f deny_rule = deny_rule_into
into_of f container_port = container_port_into
into_of f pow_spec = pow_spec_into
into_of f readiness_check = readiness_check_into
into_of f schedule_spec = schedule_spec_into
into_of f resource_requirements = resource_requirements_into f
into_of f container_spec = container_spec_into f
into_of f instance_spec = instance_spec_into
into_of f instance_status = instance_status_into f
into_of f template_spec = template_spec_into f
into_of f template_status = template_status_into
into_of f set_spec = set_spec_into
into_of f set_status = set_status_into
into_of f fence_spec = fence_spec_into
into_of f fence_status = fence_status_into
into_of f challenge_instance = instance_into f
into_of f challenge_template = template_into f
into_of f challenge_set = set_into f
into_of f network_fence = fence_into f
into_of f instance_list = instance_list_into f
into_of f template_list = template_list_into f
into_of f set_list = set_list_into f
into_of f fence_list = fence_list_into f
