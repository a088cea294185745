-- ===== src/Copies/Kinds.antt =====
-- DeepCopyInto of api/v1alpha1/zz_generated.deepcopy.go, one for each type, the fields in the order of
-- the declarations.
use kimo.Copies.Copiers.{Copier, assign, ◌▸◌, unless_nil, copy_pointer, copy_slice}
use kimo.Copies.Declared.{Foreign}

-- `DeepCopyInto` of the types with no pointer in them.
unfoldable pub allow_rule_into : Copier
allow_rule_into = assign

unfoldable pub deny_rule_into : Copier
deny_rule_into = assign

unfoldable pub container_port_into : Copier
container_port_into = assign

unfoldable pub pow_spec_into : Copier
pow_spec_into = assign

unfoldable pub readiness_check_into : Copier
readiness_check_into = assign

unfoldable pub schedule_spec_into : Copier
schedule_spec_into = assign

unfoldable pub instance_spec_into : Copier
instance_spec_into = assign

unfoldable pub set_status_into : Copier
set_status_into = assign

unfoldable pub template_status_into : Copier
template_status_into = assign

unfoldable pub fence_status_into : Copier
fence_status_into = assign

-- `DeepCopyInto` of the other types.
unfoldable pub set_spec_into : Copier
set_spec_into = copy_slice assign ▸ copy_pointer assign

unfoldable pub fence_spec_into : Copier
fence_spec_into = assign ▸ copy_slice assign ▸ copy_slice assign ▸ assign

module _ (f : Foreign) where
  unfoldable pub resource_requirements_into : Copier
  resource_requirements_into =
      copy_slice (assign ▸ f.quantity_copy) ▸ copy_slice (assign ▸ f.quantity_copy)

  unfoldable pub container_spec_into : Copier
  container_spec_into =
      assign
      ▸ copy_slice assign
      ▸ resource_requirements_into
      ▸ copy_slice f.env_var_into
      ▸ copy_pointer assign
      ▸ assign
      ▸ assign

  unfoldable pub template_spec_into : Copier
  template_spec_into =
      assign
      ▸ assign
      ▸ assign
      ▸ assign
      ▸ assign
      ▸ assign
      ▸ assign
      ▸ copy_pointer assign
      ▸ container_spec_into

  unfoldable pub instance_status_into : Copier
  instance_status_into =
      assign
      ▸ assign
      ▸ assign
      ▸ unless_nil f.time_copy
      ▸ unless_nil f.time_copy
      ▸ assign
      ▸ assign
      ▸ assign

  unfoldable pub instance_into : Copier
  instance_into = assign ▸ f.object_meta_into ▸ assign ▸ instance_status_into

  unfoldable pub template_into : Copier
  template_into = assign ▸ f.object_meta_into ▸ template_spec_into ▸ assign

  unfoldable pub set_into : Copier
  set_into = assign ▸ f.object_meta_into ▸ set_spec_into ▸ assign

  unfoldable pub fence_into : Copier
  fence_into = assign ▸ f.object_meta_into ▸ fence_spec_into ▸ assign

  unfoldable pub instance_list_into : Copier
  instance_list_into = assign ▸ f.list_meta_into ▸ copy_slice instance_into

  unfoldable pub template_list_into : Copier
  template_list_into = assign ▸ f.list_meta_into ▸ copy_slice template_into

  unfoldable pub set_list_into : Copier
  set_list_into = assign ▸ f.list_meta_into ▸ copy_slice set_into

  unfoldable pub fence_list_into : Copier
  fence_list_into = assign ▸ f.list_meta_into ▸ copy_slice fence_into
