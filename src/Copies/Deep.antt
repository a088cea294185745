-- ===== src/Copies/Deep.antt =====
-- The generated functions of api/v1alpha1/zz_generated.deepcopy.go make deep copies.
use kimo.Copies.Shape.{plain, pointer, slice, ◌▹◌}
use kimo.Copies.Copiers.{assign, ◌▸◌, copy_slice}
use kimo.Copies.Laws.{
  IsDeep, assign-IsDeep, unless_nil-IsDeep, copy_pointer-IsDeep, copy_slice-IsDeep, ◌and◌,
}
use kimo.Copies.Declared.{
  Foreign, resource_requirements_shape, container_spec_shape, template_spec_shape,
  challenge_template_shape, set_spec_shape, challenge_set_shape, fence_spec_shape,
  network_fence_shape, instance_status_shape, challenge_instance_shape,
}
use kimo.Copies.Kinds.{
  allow_rule_into, deny_rule_into, container_port_into, pow_spec_into, readiness_check_into,
  schedule_spec_into, resource_requirements_into, container_spec_into, instance_spec_into,
  instance_status_into, template_spec_into, template_status_into, set_spec_into, set_status_into,
  fence_spec_into, fence_status_into, instance_into, template_into, set_into, fence_into,
  instance_list_into, template_list_into, set_list_into, fence_list_into,
}
use kimo.Copies.Generated.{
  Generated, shape_of, into_of, allow_rule, deny_rule, container_port, pow_spec, readiness_check,
  schedule_spec, resource_requirements, container_spec, instance_spec, instance_status,
  template_spec, template_status, set_spec, set_status, fence_spec, fence_status,
  challenge_instance, challenge_template, challenge_set, network_fence, instance_list,
  template_list, set_list, fence_list,
}

-- Documented: the functions of the other packages make deep copies.
pub record IsDeepForeign (f : Foreign) : Type 0 where
  pub object_meta_into : IsDeep f.object_meta_into f.object_meta
  pub list_meta_into : IsDeep f.list_meta_into f.list_meta
  pub env_var_into : IsDeep f.env_var_into f.env_var
  pub quantity_copy : IsDeep f.quantity_copy f.quantity
  pub time_copy : IsDeep f.time_copy (pointer f.time)

module _ (f : Foreign) (deep : IsDeepForeign f) where
  map_copied : IsDeep (copy_slice (assign ▸ f.quantity_copy)) (slice (plain ▹ f.quantity))
  map_copied = copy_slice-IsDeep (assign-IsDeep and deep.quantity_copy)

  resource_requirements_into-IsDeep :
      IsDeep (resource_requirements_into f) (resource_requirements_shape f)
  unfolding resource_requirements_into
  resource_requirements_into-IsDeep = map_copied and map_copied

  container_spec_into-IsDeep : IsDeep (container_spec_into f) (container_spec_shape f)
  unfolding container_spec_into
  container_spec_into-IsDeep =
      assign-IsDeep
      and copy_slice-IsDeep assign-IsDeep
      and resource_requirements_into-IsDeep
      and copy_slice-IsDeep deep.env_var_into
      and copy_pointer-IsDeep assign-IsDeep
      and assign-IsDeep
      and assign-IsDeep

  template_spec_into-IsDeep : IsDeep (template_spec_into f) (template_spec_shape f)
  unfolding template_spec_into
  template_spec_into-IsDeep =
      assign-IsDeep
      and assign-IsDeep
      and assign-IsDeep
      and assign-IsDeep
      and assign-IsDeep
      and assign-IsDeep
      and assign-IsDeep
      and copy_pointer-IsDeep assign-IsDeep
      and container_spec_into-IsDeep

  set_spec_into-IsDeep : IsDeep set_spec_into (set_spec_shape f)
  unfolding set_spec_into
  set_spec_into-IsDeep = copy_slice-IsDeep assign-IsDeep and copy_pointer-IsDeep assign-IsDeep

  fence_spec_into-IsDeep : IsDeep fence_spec_into (fence_spec_shape f)
  unfolding fence_spec_into
  fence_spec_into-IsDeep =
      assign-IsDeep
      and copy_slice-IsDeep assign-IsDeep
      and copy_slice-IsDeep assign-IsDeep
      and assign-IsDeep

  instance_status_into-IsDeep : IsDeep (instance_status_into f) (instance_status_shape f)
  unfolding instance_status_into
  instance_status_into-IsDeep =
      assign-IsDeep
      and assign-IsDeep
      and assign-IsDeep
      and unless_nil-IsDeep deep.time_copy
      and unless_nil-IsDeep deep.time_copy
      and assign-IsDeep
      and assign-IsDeep
      and assign-IsDeep

  instance_into-IsDeep : IsDeep (instance_into f) (challenge_instance_shape f)
  unfolding instance_into
  instance_into-IsDeep =
      assign-IsDeep and deep.object_meta_into and assign-IsDeep and instance_status_into-IsDeep

  template_into-IsDeep : IsDeep (template_into f) (challenge_template_shape f)
  unfolding template_into
  template_into-IsDeep =
      assign-IsDeep and deep.object_meta_into and template_spec_into-IsDeep and assign-IsDeep

  set_into-IsDeep : IsDeep (set_into f) (challenge_set_shape f)
  unfolding set_into
  set_into-IsDeep =
      assign-IsDeep and deep.object_meta_into and set_spec_into-IsDeep and assign-IsDeep

  fence_into-IsDeep : IsDeep (fence_into f) (network_fence_shape f)
  unfolding fence_into
  fence_into-IsDeep =
      assign-IsDeep and deep.object_meta_into and fence_spec_into-IsDeep and assign-IsDeep

  pub into-IsDeep : (k : Generated) → IsDeep (into_of f k) (shape_of f k)
  unfolding allow_rule_into deny_rule_into container_port_into pow_spec_into readiness_check_into
      schedule_spec_into instance_spec_into template_status_into set_status_into fence_status_into
      instance_list_into template_list_into set_list_into fence_list_into
  into-IsDeep allow_rule = assign-IsDeep
  into-IsDeep deny_rule = assign-IsDeep
  into-IsDeep container_port = assign-IsDeep
  into-IsDeep pow_spec = assign-IsDeep
  into-IsDeep readiness_check = assign-IsDeep
  into-IsDeep schedule_spec = assign-IsDeep
  into-IsDeep resource_requirements = resource_requirements_into-IsDeep
  into-IsDeep container_spec = container_spec_into-IsDeep
  into-IsDeep instance_spec = assign-IsDeep
  into-IsDeep instance_status = instance_status_into-IsDeep
  into-IsDeep template_spec = template_spec_into-IsDeep
  into-IsDeep template_status = assign-IsDeep
  into-IsDeep set_spec = set_spec_into-IsDeep
  into-IsDeep set_status = assign-IsDeep
  into-IsDeep fence_spec = fence_spec_into-IsDeep
  into-IsDeep fence_status = assign-IsDeep
  into-IsDeep challenge_instance = instance_into-IsDeep
  into-IsDeep challenge_template = template_into-IsDeep
  into-IsDeep challenge_set = set_into-IsDeep
  into-IsDeep network_fence = fence_into-IsDeep
  into-IsDeep instance_list =
      assign-IsDeep and deep.list_meta_into and copy_slice-IsDeep instance_into-IsDeep
  into-IsDeep template_list =
      assign-IsDeep and deep.list_meta_into and copy_slice-IsDeep template_into-IsDeep
  into-IsDeep set_list = assign-IsDeep and deep.list_meta_into and copy_slice-IsDeep set_into-IsDeep
  into-IsDeep fence_list =
      assign-IsDeep and deep.list_meta_into and copy_slice-IsDeep fence_into-IsDeep
