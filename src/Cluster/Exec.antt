-- ===== src/Cluster/Exec.antt =====
-- Go code that calls the client: it has the world, keeps a log of the calls (the latest first),
-- and returns a value or an error. The log is no state of the program: the theorems read it.
use kimo.Prelude.{String, ◌<>◌, Bool, false, List, ◌∷◌, Result, ok, err, is_ok}
use kimo.Cluster.Requests.{Request, Exchange}
use kimo.Cluster.Client.{Api}

-- An error of the client, one that `fmt.Errorf` wraps with a text before it, or a text.
pub data GoError (E : Type 0) : Type 0 where
  api_error : E → GoError E
  wrapped : String → GoError E → GoError E
  text : String → GoError E

pub record Sys (W : Type 0) : Type 0 where
  pub world : W
  pub log : List Exchange

abbrev pub M : Type 0 → Type 0 → Type 0 → Type 0
M W E A = Sys W → Result (GoError E) A × Sys W

abbrev pub lift_error : {E A : Type 0} → Result E A → Result (GoError E) A
lift_error (ok a) = ok a
lift_error (err e) = err (api_error e)

module _ {W E A : Type 0} where
  abbrev pub pure : A → M W E A
  pure a s = (ok a, s)

  abbrev pub raise : GoError E → M W E A
  raise e s = (err e, s)

  -- Make a call, and note in the log whether it succeeded.
  unfoldable pub call : Request → (W → Result E A × W) → M W E A
  call q f s =
      let (r, w) = f s.world in
      (
        lift_error r,
        record { world = w; log = record { request = q; succeeded = is_ok r } ∷ s.log },
      )

module _ {W E A B : Type 0} where
  -- Both ways on: with the value, or with the error.
  abbrev pub settle : Result (GoError E) A → (A → M W E B) → (GoError E → M W E B) → M W E B
  settle (ok a) f g s = f a s
  settle (err e) f g s = g e s

  -- `x, err := m; if err != nil { g } ; f`
  unfoldable pub attempt : M W E A → (A → M W E B) → (GoError E → M W E B) → M W E B
  attempt m f g s = let (r, s') = m s in settle r f g s'

  infixl 10 ◌>>=◌ ◌>>◌
  -- `if err != nil { return err }` after each step.
  unfoldable pub ◌>>=◌ : M W E A → (A → M W E B) → M W E B
  unfolding attempt
  m >>= f = attempt m f raise

  unfoldable pub ◌>>◌ : M W E A → M W E B → M W E B
  unfolding ◌>>=◌
  m >> n = m >>= λ _. n

module _ {W E : Type 0} (api : Api W E) where
  abbrev pub error_string : GoError E → String
  error_string (api_error e) = api.error_text e
  error_string (wrapped t e) = t <> ": " <> error_string e
  error_string (text t) = t

  -- `errors.IsNotFound`, which looks through wrapping.
  abbrev pub is_not_found : GoError E → Bool
  is_not_found (api_error e) = api.is_not_found e
  is_not_found (wrapped t e) = is_not_found e
  is_not_found (text t) = false

  abbrev pub is_already_exists : GoError E → Bool
  is_already_exists (api_error e) = api.is_already_exists e
  is_already_exists (wrapped t e) = is_already_exists e
  is_already_exists (text t) = false

-- Opens the operations above all at once.
unfoldable pub effects : Unit {0}
unfolding call attempt ◌>>=◌ ◌>>◌
effects = tt
