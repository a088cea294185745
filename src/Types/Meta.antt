-- ===== src/Types/Meta.antt =====
-- What every object carries, and the label keys of api/v1alpha1/labels.go.
use kimo.Prelude.{String, List, [], Map}
use kimo.Prelude.Int.{ℤ}

-- Nanoseconds since the Unix epoch.
abbrev pub Time : Type 0
Time = ℤ

-- Nanoseconds, an int64.
abbrev pub Duration : Type 0
Duration = ℤ

pub record ObjectMeta : Type 0 where
  pub name : String
  pub namespace : String
  pub labels : Map String
  pub owner_references : List String
  pub resource_version : String

pub record NamespacedName : Type 0 where
  pub name : String
  pub namespace : String

abbrev pub label_challenge : String
label_challenge = "kimo.io/challenge"

abbrev pub label_team : String
label_team = "kimo.io/team"

abbrev pub label_instance : String
label_instance = "kimo.io/instance"

-- `metav1.ObjectMeta{Name: …, Namespace: …, Labels: …}`: the fields left out are zero.
abbrev pub object_meta : String → String → Map String → ObjectMeta
object_meta name namespace labels = record {
  name = name;
  namespace = namespace;
  labels = labels;
  owner_references = [];
  resource_version = "";
}

abbrev pub key_of : ObjectMeta → NamespacedName
key_of m = record { name = m.name; namespace = m.namespace }
