-- ===== src/Cluster/Log.antt =====
-- How an action's log grows: one rule for each way to build an action.
use kimo.Prelude.{◌≡◌, refl, Bool, true, false, List, ◌∷◌, Result, ok, err, is_ok, if◌then◌else◌}
use kimo.Cluster.Requests.{Request, Exchange}
use kimo.Cluster.Exec.{GoError, Sys, M, pure, raise, call, settle, attempt, ◌>>=◌, ◌>>◌}

-- `new` is `old` with exchanges in front that all satisfy `P`.
pub data Extends (P : Exchange → Type 0) (old : List Exchange) : List Exchange → Type 0 where
  same : Extends P old old
  more : {x : Exchange} {new : List Exchange} → P x → Extends P old new → Extends P old (x ∷ new)

module _ {P : Exchange → Type 0} where
  pub Extends-trans : {a b c : List Exchange} → Extends P a b → Extends P b c → Extends P a c
  Extends-trans h same = h
  Extends-trans h (more p k) = more p (Extends-trans h k)

pub Extends-map :
    {P Q : Exchange → Type 0} {a b : List Exchange}
    → ((x : Exchange) → P x → Q x)
    → Extends P a b
    → Extends Q a b
Extends-map f same = same
Extends-map f (more p k) = more (f _ p) (Extends-map f k)

-- Every call that the action makes satisfies `P`, whatever the answers are.
pub record Only {W E A : Type 0} (P : Exchange → Type 0) (m : M W E A) : Type 0 where
  pub at : (s : Sys W) → Extends P s.log (m s).1.log

module _ {W E A : Type 0} {P : Exchange → Type 0} where
  pub Only-pure : (a : A) → Only P (pure {W = W} {E = E} a)
  Only-pure a = record { at = λ s. same }

  pub Only-raise : (e : GoError E) → Only P (raise {W = W} {A = A} e)
  Only-raise e = record { at = λ s. same }

  pub Only-call :
      (q : Request) (f : W → Result E A × W)
      → ((b : Bool) → P (record { request = q; succeeded = b }))
      → Only P (call q f)
  unfolding call
  Only-call q f p = record { at = λ s. more (p (is_ok (f s.world).0)) same }

  pub Only-if : (b : Bool) (m n : M W E A) → Only P m → Only P n → Only P (if b then m else n)
  Only-if true m n k h = k
  Only-if false m n k h = h

  -- With what the test says in each branch.
  pub Only-if_cases :
      (b : Bool) (m n : M W E A)
      → (b ≡ true → Only P m)
      → (b ≡ false → Only P n)
      → Only P (if b then m else n)
  Only-if_cases true m n k h = k refl
  Only-if_cases false m n k h = h refl

module _ {W E A B : Type 0} {P : Exchange → Type 0} where
  Only-settle :
      (r : Result (GoError E) A) (f : A → M W E B) (g : GoError E → M W E B)
      → ((a : A) → Only P (f a))
      → ((e : GoError E) → Only P (g e))
      → Only P (settle r f g)
  Only-settle (ok a) f g kf kg = record { at = λ s. (kf a).at s }
  Only-settle (err e) f g kf kg = record { at = λ s. (kg e).at s }

  pub Only-attempt :
      (m : M W E A) (f : A → M W E B) (g : GoError E → M W E B)
      → Only P m
      → ((a : A) → Only P (f a))
      → ((e : GoError E) → Only P (g e))
      → Only P (attempt m f g)
  unfolding attempt
  Only-attempt m f g k kf kg = record {
    at = λ s. let (r, s') = m s in Extends-trans (k.at s) ((Only-settle r f g kf kg).at s');
  }

  pub Only-bind :
      (m : M W E A) (f : A → M W E B) → Only P m → ((a : A) → Only P (f a)) → Only P (m >>= f)
  unfolding ◌>>=◌
  Only-bind m f k kf = Only-attempt m f raise k kf Only-raise

  pub Only-then : (m : M W E A) (n : M W E B) → Only P m → Only P n → Only P (m >> n)
  unfolding ◌>>◌
  Only-then m n k kn = Only-bind m (λ _. n) k (λ _. kn)

pub ruleset only_rules =
    (Only-pure, Only-raise, Only-call, Only-if, Only-attempt, Only-bind, Only-then)
