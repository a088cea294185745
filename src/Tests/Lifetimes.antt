-- ===== src/Tests/Lifetimes.antt =====
-- The theorems on puzzles, hooks and created instances over several requests, at concrete inputs.
use kimo.Prelude.{ℕ, ◌+◌, ◌≤◌, String, List, [], ◌∷◌, ◌≡◌, refl, err, arith, Map}
use kimo.Prelude.Int.{pos}
use kimo.Integrations.Http.{Client}
use kimo.Integrations.Generic.{fan_out}
use kimo.Integrations.AnyOrder.{fan_out-Perm}
use kimo.Pow.{generate_pow_puzzle}
use kimo.Pow.Digits.{preimage-injective}
use kimo.Server.Spending.{Access, attempted, issues, waiting, redemptions, redemptions-le-issues}
use kimo.Tests.World.{World, cluster}
use kimo.Tests.Platforms.{network, quiet_wire, mac}
use kimo.Tests.Requests.{hash, server}
use mathlib.Core.List.{Perm, Permᴰ}

abbrev twice : List (Access World)
twice = attempted "abc" 2 ∷ attempted "abc" 2 ∷ []

redemptions-le-issues_example :
    redemptions hash cluster "abc" twice server ≤ issues "abc" twice + waiting "abc" server
redemptions-le-issues_example = redemptions-le-issues hash cluster "abc" twice server

abbrev one_way : Map String
one_way = ("http://down/", "s") ∷ ("http://hook/", "t") ∷ []

abbrev other_way : Map String
other_way = ("http://hook/", "t") ∷ ("http://down/", "s") ∷ []

-- A network where no call gets through.
abbrev unreachable : Client Unit String
unreachable call w = (err "no route to host", w)

fan_out-Perm_example :
    Perm
      (fan_out mac network one_way "{}" quiet_wire).1.sent
      (fan_out mac unreachable other_way "{}" quiet_wire).1.sent
fan_out-Perm_example =
    fan_out-Perm mac network unreachable "{}" one_way other_way quiet_wire ∣ Permᴰ.swap refl refl ∣₁

preimage-injective_example : (◌≡◌ {A = List ℕ} (171 ∷ 5 ∷ []) (171 ∷ 5 ∷ [])) × (◌≡◌ {A = ℕ} 42 42)
unfolding generate_pow_puzzle
preimage-injective_example =
    preimage-injective (171 ∷ 5 ∷ []) (171 ∷ 5 ∷ []) 42 42 (pos 7) (pos 9) (pos 0) (pos 1)
      (omega arith) (omega arith) refl refl
