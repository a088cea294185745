-- ===== src/Copies.antt =====
-- Deep copies of the custom resources: api/v1alpha1/zz_generated.deepcopy.go.
pub mod Memory
pub mod Shape
pub mod Copiers
pub mod Copied
pub mod Laws
pub mod Declared
pub mod Kinds
pub mod Generated
pub mod Deep
pub mod Methods
pub mod Selected
pub mod Apart
