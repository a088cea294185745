-- ===== src/Types/Fence.antt =====
-- api/v1alpha1/networkfence_types.go
use kimo.Prelude.{String, Bool, List}
use kimo.Prelude.Int.{ℤ}
use kimo.Types.Meta.{ObjectMeta}

pub record AllowRule : Type 0 where
  pub cidr : String
  pub port : ℤ  -- int32

pub record DenyRule : Type 0 where
  pub to : String

pub record FenceSpec : Type 0 where
  pub instance_ref : String
  pub allow_rules : List AllowRule
  pub deny_rules : List DenyRule
  pub allow_egress : Bool

pub record FenceStatus : Type 0 where
  pub applied : Bool
  pub message : String

pub record NetworkFence : Type 0 where
  pub metadata : ObjectMeta
  pub spec : FenceSpec
  pub status : FenceStatus
