-- ===== src/Copies/Declared.antt =====
-- The declarations of api/v1alpha1/*_types.go as far as pointers go, the fields in their order.
use kimo.Copies.Shape.{Shape, plain, pointer, slice, ◌▹◌}
use kimo.Copies.Copiers.{Copier}

-- The types of apimachinery and of the core API that have pointers in them, and their own functions:
-- DeepCopyInto of metadata and of an environment variable, DeepCopy of a quantity and of a time.
pub record Foreign : Type 0 where
  pub object_meta : Shape
  pub list_meta : Shape
  pub env_var : Shape
  pub quantity : Shape
  pub time : Shape
  pub object_meta_into : Copier
  pub list_meta_into : Copier
  pub env_var_into : Copier
  pub quantity_copy : Copier
  pub time_copy : Copier

module _ (f : Foreign) where
  -- An entry of a map is its key and its value.
  abbrev pub resource_requirements_shape : Shape
  resource_requirements_shape = slice (plain ▹ f.quantity) ▹ slice (plain ▹ f.quantity)

  abbrev pub container_spec_shape : Shape
  container_spec_shape =
      plain
      ▹ slice plain
      ▹ resource_requirements_shape
      ▹ slice f.env_var
      ▹ pointer plain
      ▹ plain
      ▹ plain

  abbrev pub template_spec_shape : Shape
  template_spec_shape =
      plain ▹ plain ▹ plain ▹ plain ▹ plain ▹ plain ▹ plain ▹ pointer plain ▹ container_spec_shape

  abbrev pub challenge_template_shape : Shape
  challenge_template_shape = plain ▹ f.object_meta ▹ template_spec_shape ▹ plain

  abbrev pub set_spec_shape : Shape
  set_spec_shape = slice plain ▹ pointer plain

  abbrev pub challenge_set_shape : Shape
  challenge_set_shape = plain ▹ f.object_meta ▹ set_spec_shape ▹ plain

  abbrev pub fence_spec_shape : Shape
  fence_spec_shape = plain ▹ slice plain ▹ slice plain ▹ plain

  abbrev pub network_fence_shape : Shape
  network_fence_shape = plain ▹ f.object_meta ▹ fence_spec_shape ▹ plain

  abbrev pub instance_status_shape : Shape
  instance_status_shape =
      plain ▹ plain ▹ plain ▹ pointer f.time ▹ pointer f.time ▹ plain ▹ plain ▹ plain

  abbrev pub challenge_instance_shape : Shape
  challenge_instance_shape = plain ▹ f.object_meta ▹ plain ▹ instance_status_shape

  -- The list type of each of the four.
  abbrev pub list_of : Shape → Shape
  list_of t = plain ▹ f.list_meta ▹ slice t
