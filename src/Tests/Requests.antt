-- ===== src/Tests/Requests.antt =====
-- The theorems on the REST API, at concrete inputs.
use kimo.Prelude.{
  ℕ, String, ◌==◌, true, false, Option, none, some, List, [], ◌∷◌, ◌≡◌, ◌↔◌, ◌⊎◌, refl, arith,
  eq_iff, lookup, if◌then◌else◌,
}
use kimo.Prelude.Int.{pos}
use kimo.Types.{running, ChallengeInstance, PowSpec}
use kimo.Integrations.Backend.{HttpRequest}
use kimo.Pow.{PowPuzzle}
use kimo.Server.State.{State}
use kimo.Server.Names.{has_dash, instance_name-injective}
use kimo.Server.Puzzles.{IsSolved, consume_pow, consume_pow-exact}
use kimo.Server.Handlers.{InstanceQuery}
use kimo.Server.Create.{CreateInstanceRequest, handle_create_instance}
use kimo.Server.Grants.{GrantedBy, Kept, handle_create_instance-GrantedBy}
use kimo.Server.Routes.{Route, delete_instance, serve}
use kimo.Server.Access.{Refused, authenticated, serve-unauthorized_iff}
use kimo.Server.State.{puzzle, write_json}
use kimo.Pow.{generate_pow_puzzle, hex, preimage, count_leading_zero_bits}
use kimo.Cluster.Log.{Extends}
use kimo.Server.Routes.{handle}
use kimo.Server.Handlers.{pow_challenge}
use kimo.Server.Issued.{pow_challenge-redeems}
use kimo.Server.Reads.{IsRead, handle-IsRead}
use kimo.Instance.Reconcile.{seconds}
use kimo.Prelude.Int.{◌+ℤ◌, ◌≤ℤ◌}
use kimo.Prelude.{true, ◌↔◌}
use kimo.Tests.World.{web_port, World, cluster, platform, web_template, red_instance, system_at}

abbrev pub hash : String → List ℕ
hash t = if t == "abc:2" then 1 ∷ [] else 255 ∷ []

abbrev abc : PowPuzzle
abc = record { challenge = "abc"; difficulty = pos 7; expires_at = pos 5000 }

abbrev pub red : ChallengeInstance
red = red_instance running none

abbrev guarded : Option PowSpec
guarded = some (record { enabled = true; difficulty = pos 7; algorithm = "sha256"; ttl = "" })

abbrev pub server : State World
server = record { sys = system_at (pos 1000) red guarded; puzzles = ("abc", abc) ∷ [] }

instance_name-injective_example :
    (◌≡◌ {A = String} "web" "web") × (◌≡◌ {A = String} "red" "red") × (◌≡◌ {A = String} "a-b" "a-b")
unfolding has_dash
instance_name-injective_example =
    instance_name-injective "web" "web" "red" "red" "a-b" "a-b" refl refl refl refl refl

consume_pow-exact_example :
    (((consume_pow hash cluster "abc" 2 server).0 ≡ true)
      ↔ ((p : PowPuzzle) × (lookup "abc" server.puzzles ≡ some p) × IsSolved hash p 2 (pos 1000)))
    × (lookup "xyz" (consume_pow hash cluster "abc" 2 server).1.puzzles
        ≡ lookup "xyz" server.puzzles)
consume_pow-exact_example = consume_pow-exact hash cluster "abc" "xyz" 2 server

abbrev pub blue_request : CreateInstanceRequest
blue_request = record {
  template = "web";
  team = "blue";
  player = "";
  pow_challenge = "abc";
  pow_nonce = 2;
}

handle_create_instance-GrantedBy_example :
    GrantedBy hash cluster
      (some blue_request)
      server
      (handle_create_instance hash cluster (some blue_request) server)
    ⊎ Kept hash cluster [] (handle_create_instance hash cluster (some blue_request) server)
handle_create_instance-GrantedBy_example =
    handle_create_instance-GrantedBy hash cluster (some blue_request) server

-- A request with the wrong key.
abbrev intruder : HttpRequest
intruder = record { authorization = "Bearer guess" }

serve-unauthorized_iff_example :
    (((serve hash cluster platform intruder (delete_instance "web-red") server).0.status ≡ 401)
      ↔ ((true ≡ true) × (authenticated hash cluster platform intruder server ≡ false)))
    × ((serve hash cluster platform intruder (delete_instance "web-red") server).0.status ≡ 401
        → Refused hash cluster platform server
            (serve hash cluster platform intruder (delete_instance "web-red") server))
serve-unauthorized_iff_example =
    serve-unauthorized_iff hash cluster platform intruder (delete_instance "web-red") server

abbrev red_query : InstanceQuery
red_query = record { team = "red"; challenge = ""; status = "Running" }

pow_challenge-redeems_example :
    let (answer, after) = pow_challenge cluster "web" server in
    (answer ≡ write_json 200 (puzzle (generate_pow_puzzle (pos 7) (171 ∷ 5 ∷ []) (pos 1000))))
    × (((consume_pow hash cluster "ab05" 2 (record after { sys = system_at (pos 9000) red none })).0
          ≡ true)
        ↔ ((pos 9000 ≤ℤ pos 1000 +ℤ seconds 300)
            × (pos 7 ≤ℤ pos (count_leading_zero_bits (hash (preimage "ab05" 2))))))
unfolding lookup hex generate_pow_puzzle
pow_challenge-redeems_example =
    pow_challenge-redeems hash cluster "web" 2 server (system_at (pos 9000) red none)
      {t = web_template (web_port ∷ []) guarded}
      {spec = record { enabled = true; difficulty = pos 7; algorithm = "sha256"; ttl = "" }}
      (ground (arith, eq_iff "web" "")) refl refl refl

handle-IsRead_example :
    Extends IsRead []
      (handle hash cluster platform (Route.get_pow_challenge "web") server).1.sys.log
handle-IsRead_example =
    handle-IsRead cluster hash platform (Route.get_pow_challenge "web") server refl
