-- ===== src/Integrations/AnyOrder.antt =====
-- Go visits a map in any order: the loop over the hooks in internal/integrations/generic.go.
use kimo.Prelude.{ℕ, String, List, Map}
use mathlib.Core.List.{Perm}
use mathlib.Core.List.Perm
use kimo.Integrations.Http.{Wire, Client}
use kimo.Integrations.Generic.{signed, fan_out}
use kimo.Integrations.Fanout.{fan_out-sent}

-- Whatever the order in which the hooks are visited, and whatever the two runs are answered, a
-- notification makes the same calls up to their order, after the calls that were made before.
pub fan_out-Perm :
    (hmac : String → String → List ℕ) {W E : Type 0} (client client' : Client W E)
    (payload : String) (hooks hooks' : Map String) (wire : Wire W)
    → Perm hooks hooks'
    → Perm
        (fan_out hmac client hooks payload wire).1.sent
        (fan_out hmac client' hooks' payload wire).1.sent
fan_out-Perm hmac client client' payload hooks hooks' wire d =
    rw (fan_out-sent hmac client hooks payload wire) (
      rw (fan_out-sent hmac client' hooks' payload wire)
        (Perm.append_left wire.sent (Perm.map (signed hmac payload) d)))
