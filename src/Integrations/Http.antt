-- ===== src/Integrations/Http.antt =====
-- Go's HTTP client as a backend uses it. What a server answers is a parameter; the calls that were
-- tried are kept, the first one first, for the theorems.
use kimo.Prelude.{ℕ, String, List, [], ◌∷◌, ◌++◌, Map, Result}

pub record HttpCall : Type 0 where
  pub method : String
  pub url : String
  pub headers : Map String
  pub body : String

pub record HttpReply : Type 0 where
  pub status : ℕ
  pub body : String

pub record Wire (W : Type 0) : Type 0 where
  pub world : W
  pub sent : List HttpCall

-- Making the request and sending it, both of which may fail.
abbrev pub Client : Type 0 → Type 0 → Type 0
Client W E = HttpCall → W → Result E HttpReply × W

unfoldable pub send : {W E : Type 0} → Client W E → HttpCall → Wire W → Result E HttpReply × Wire W
send client c wire =
    let (r, w) = client c wire.world in (r, record { world = w; sent = wire.sent ++ (c ∷ []) })
