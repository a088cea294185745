-- ===== src/Server/State.antt =====
-- The state of `Server` (internal/api/server.go), responses, and how a handler calls the client.
use kimo.Prelude.{ℕ, String, List, [], Map, Result, ok, err}
use kimo.Types.{ChallengeInstance, ChallengeTemplate}
use kimo.Cluster.{GoError, Sys, M}
use kimo.Cluster.Returns.{Returns, done, fail}
use kimo.Pow.{PowPuzzle}

-- The bodies of the responses: an error's text, or the value that `writeJSON` encodes.
pub data Body : Type 0 where
  no_body : Body
  error_text : String → Body
  status_ok : Body
  not_required : Body
  puzzle : PowPuzzle → Body
  template : ChallengeTemplate → Body
  templates : List ChallengeTemplate → Body
  instance_body : ChallengeInstance → Body
  instances : List ChallengeInstance → Body

pub record Response : Type 0 where
  pub status : ℕ
  pub body : Body

abbrev pub http_error : String → ℕ → Response
http_error text status = record { status = status; body = error_text text }

abbrev pub write_json : ℕ → Body → Response
write_json status body = record { status = status; body = body }

-- The puzzles that were issued and not redeemed, by challenge. The mutex makes each access to
-- them one step.
pub record State (W : Type 0) : Type 0 where
  pub sys : Sys W
  pub puzzles : Map PowPuzzle

-- `NewServer`: no puzzle is out. The client, the backend and the namespace are arguments of the
-- handlers.
abbrev pub new_server : {W : Type 0} → Sys W → State W
new_server sys = record { sys = sys; puzzles = [] }

abbrev pub Action : Type 0 → Type 0 → Type 0
Action W A = State W → A × State W

module _ {W E A B : Type 0} where
  abbrev pub answer :
      Result (GoError E) A → (A → Action W B) → (GoError E → Action W B) → Action W B
  answer (ok a) f g = f a
  answer (err e) f g = g e

  -- `if err := s.client.…; err != nil { g }; f`
  unfoldable pub calling : M W E A → (A → Action W B) → (GoError E → Action W B) → Action W B
  calling m f g st = let (r, sys') = m st.sys in answer r f g (record st { sys = sys' })

module _ {W : Type 0} where
  abbrev pub respond : Response → Action W Response
  respond r st = (r, st)

module _ {W E A B : Type 0} {Q : A → Sys W → Type 0} {R : GoError E → Sys W → Type 0} where
  calling-answer :
      (f : A → Action W B) (g : GoError E → Action W B) (st : State W) (P : B × State W → Type 0)
      {x : Result (GoError E) A × Sys W}
      → Returns Q R x
      → ((a : A) (s : Sys W) → Q a s → P (f a (record st { sys = s })))
      → ((e : GoError E) (s : Sys W) → R e s → P (g e (record st { sys = s })))
      → P (answer x.0 f g (record st { sys = x.1 }))
  calling-answer f g st P (done q) kf kg = kf _ _ q
  calling-answer f g st P (fail r) kf kg = kg _ _ r

  pub calling-Returns :
      (m : M W E A) (f : A → Action W B) (g : GoError E → Action W B) (st : State W)
      (P : B × State W → Type 0)
      → Returns Q R (m st.sys)
      → ((a : A) (s : Sys W) → Q a s → P (f a (record st { sys = s })))
      → ((e : GoError E) (s : Sys W) → R e s → P (g e (record st { sys = s })))
      → P (calling m f g st)
  unfolding calling
  calling-Returns m f g st P h kf kg = calling-answer f g st P h kf kg
