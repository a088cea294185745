-- ===== src/Cluster/Follows.antt =====
-- How the log grows where what follows depends on what an action returns.
use kimo.Prelude.{◌≡◌, subst, same_answer, true, false, List, Result, ok, Bool}
use kimo.Cluster.Requests.{Request, Exchange}
use kimo.Cluster.Log.{Extends, same, more, Extends-trans, Only, Only-raise}
use kimo.Cluster.Exec.{GoError, Sys, M, raise, call, settle, attempt, ◌>>=◌}
use kimo.Cluster.Returns.{
  Returns, done, fail, Returns-any, Returns-map, Returns-answer, Returns-attempt, Returns-trivial,
}

module _ {W E A : Type 0} {Q : A → Sys W → Type 0} {R : GoError E → Sys W → Type 0}
    {P : Exchange → Type 0} where
  -- A postcondition, and what the log grew by.
  pub Returns-Only :
      (m : M W E A) (s : Sys W)
      → Only P m
      → Returns Q R (m s)
      → Returns
          (λ a s'. Q a s' × Extends P s.log s'.log)
          (λ e s'. R e s' × Extends P s.log s'.log)
          (m s)
  Returns-Only m s only h = join (only.at s) h
    where
      join :
          {x : Result (GoError E) A × Sys W}
          → Extends P s.log x.1.log
          → Returns Q R x
          → Returns
              (λ a s'. Q a s' × Extends P s.log s'.log)
              (λ e s'. R e s' × Extends P s.log s'.log)
              x
      join k (done q) = done (q, k)
      join k (fail r) = fail (r, k)

module _ {W E A B : Type 0} {P : Exchange → Type 0} (Q : A → Type 0) where
  -- As `Only-attempt`, where what follows may use what the first action promises of its value.
  pub Only-attempt_of :
      (m : M W E A) (f : A → M W E B) (g : GoError E → M W E B)
      → ((s : Sys W) → Returns (λ a s'. Q a) (λ e s'. Unit {0}) (m s))
      → Only P m
      → ((a : A) → Q a → Only P (f a))
      → ((e : GoError E) → Only P (g e))
      → Only P (attempt m f g)
  unfolding attempt
  Only-attempt_of m f g promise only kf kg = record {
    at = λ s. follow s (Returns-Only m s only (promise s));
  }
    where
      follow :
          (s : Sys W) {x : Result (GoError E) A × Sys W}
          → Returns
              (λ a s'. Q a × Extends P s.log s'.log)
              (λ e s'. Unit {0} × Extends P s.log s'.log)
              x
          → Extends P s.log (settle x.0 f g x.1).1.log
      follow s (done (q, k)) = Extends-trans k ((kf _ q).at _)
      follow s (fail (_, k)) = Extends-trans k ((kg _).at _)

  pub Only-bind_of :
      (m : M W E A) (f : A → M W E B)
      → ((s : Sys W) → Returns (λ a s'. Q a) (λ e s'. Unit {0}) (m s))
      → Only P m
      → ((a : A) → Q a → Only P (f a))
      → Only P (m >>= f)
  unfolding ◌>>=◌
  Only-bind_of m f promise only kf = Only-attempt_of m f raise promise only kf Only-raise

-- An action that keeps to a rule keeps the log to it, whatever it returns.
pub Only-Returns :
    {W E A : Type 0} {P : Exchange → Type 0} {old : List Exchange} (m : M W E A) (s : Sys W)
    → Extends P old s.log
    → Only P m
    → Returns (λ a s'. Extends P old s'.log) (λ e s'. Extends P old s'.log) (m s)
Only-Returns m s h only =
    Returns-map (λ a s' k. Extends-trans h k.1) (λ e s' k. Extends-trans h k.1)
      (Returns-Only m s only (Returns-trivial (m s)))

-- A call that is answered, and what follows: a rule about the answer that both keep to.
pub Extends-read :
    {W E A B : Type 0} (P : A → Exchange → Type 0) (q : Request) (f : W → Result E A × W)
    (m : A → M W E B) (g : GoError E → M W E B)
    → ((a : A) (b : Bool) → P a (record { request = q; succeeded = b }))
    → ((a : A) → Only (P a) (m a))
    → ((a : A) (e : GoError E) → Only (P a) (g e))
    → (s : Sys W) {a : A} → (f s.world).0 ≡ ok a
    → Extends (P a) s.log (attempt (call q f) m g s).1.log
Extends-read P q f m g quiet only failed s {a} found =
    Returns-any {Q = λ d s'. Extends (P a) s.log s'.log} {R = λ e s'. Extends (P a) s.log s'.log}
      (λ d s' h. h) (λ e s' h. h)
      (Returns-attempt _ _ _ s (Returns-answer q f s)
        (λ b s' h.
          Only-Returns (m b) s' (rw h.2 (more (quiet a true) same))
            (subst (λ c. Only (P c) (m b)) (same_answer h.0 found) (only b)))
        (λ e s' h. Only-Returns (g e) s' (rw h.2 (more (quiet a false) same)) (failed a e)))
