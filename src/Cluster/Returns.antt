-- ===== src/Cluster/Returns.antt =====
-- Postconditions of actions: `Q` where a value comes back, `R` where an error does.
use kimo.Prelude.{
  ◌≡◌, refl, ap, true, false, ◌∷◌, Result, ok, err, is_ok, arith, Bool, if◌then◌else◌,
}
use kimo.Cluster.Requests.{Request}
use kimo.Cluster.Exec.{GoError, Sys, M, raise, lift_error, call, settle, attempt, ◌>>=◌, ◌>>◌}

pub data Returns {W E A : Type 0} (Q : A → Sys W → Type 0) (R : GoError E → Sys W → Type 0)
    : Result (GoError E) A × Sys W → Type 0 where
  done : {a : A} {s : Sys W} → Q a s → Returns Q R (ok a, s)
  fail : {e : GoError E} {s : Sys W} → R e s → Returns Q R (err e, s)

module _ {W E A : Type 0} {Q : A → Sys W → Type 0} {R : GoError E → Sys W → Type 0} where
  pub Returns-ok : {x : Result (GoError E) A × Sys W} {a : A} → Returns Q R x → x.0 ≡ ok a → Q a x.1
  Returns-ok (done {a = b} q) e = ground arith
  Returns-ok (fail r) e = cc

  pub Returns-err :
      {x : Result (GoError E) A × Sys W} {b : GoError E} → Returns Q R x → x.0 ≡ err b → R b x.1
  Returns-err (done q) e = cc
  Returns-err (fail {e = c} r) e = ground arith

  pub Returns-any :
      {x : Result (GoError E) A × Sys W} {P : Sys W → Type 0}
      → ((a : A) (s : Sys W) → Q a s → P s)
      → ((e : GoError E) (s : Sys W) → R e s → P s)
      → Returns Q R x
      → P x.1
  Returns-any f g (done q) = f _ _ q
  Returns-any f g (fail r) = g _ _ r

module _ {W E A : Type 0} {Q Q' : A → Sys W → Type 0} {R R' : GoError E → Sys W → Type 0} where
  pub Returns-map :
      {x : Result (GoError E) A × Sys W}
      → ((a : A) (s : Sys W) → Q a s → Q' a s)
      → ((e : GoError E) (s : Sys W) → R e s → R' e s)
      → Returns Q R x
      → Returns Q' R' x
  Returns-map f g (done q) = done (f _ _ q)
  Returns-map f g (fail r) = fail (g _ _ r)

module _ {W E A : Type 0} where
  abbrev pub Answered : Request → (W → Result E A × W) → Sys W → A → Sys W → Type 0
  Answered q f s a s' =
      ((f s.world).0 ≡ ok a)
      × (s'.world ≡ (f s.world).1)
      × (s'.log ≡ record { request = q; succeeded = true } ∷ s.log)

  abbrev pub Rejected : Request → (W → Result E A × W) → Sys W → GoError E → Sys W → Type 0
  Rejected q f s e s' =
      (lift_error (f s.world).0 ≡ err e)
      × (s'.world ≡ (f s.world).1)
      × (s'.log ≡ record { request = q; succeeded = false } ∷ s.log)

  -- What a call returns is what the client answered, and the call stands in front of the log.
  pub Returns-answer :
      (q : Request) (f : W → Result E A × W) (s : Sys W)
      → Returns (Answered q f s) (Rejected q f s) (call q f s)
  unfolding call
  Returns-answer q f s = answer (f s.world).0 refl
    where
      answer :
          (r : Result E A)
          → (f s.world).0 ≡ r
          → Returns (Answered q f s) (Rejected q f s) (
            lift_error r,
            record {
              world = (f s.world).1;
              log = record { request = q; succeeded = is_ok r } ∷ s.log;
            },
          )
      answer (ok a) e = done (e, refl, refl)
      answer (err x) e = fail (ap lift_error e, refl, refl)

  pub Returns-call :
      (q : Request) (f : W → Result E A × W) (s : Sys W)
      → Returns
          (λ a s'. s'.log ≡ record { request = q; succeeded = true } ∷ s.log)
          (λ e s'. s'.log ≡ record { request = q; succeeded = false } ∷ s.log)
          (call q f s)
  Returns-call q f s = Returns-map (λ a s' h. h.2) (λ e s' h. h.2) (Returns-answer q f s)

module _ {W E A B : Type 0} {Q : A → Sys W → Type 0} {R : GoError E → Sys W → Type 0}
    {Q' : B → Sys W → Type 0} {R' : GoError E → Sys W → Type 0} where
  Returns-settle :
      {x : Result (GoError E) A × Sys W} (f : A → M W E B) (g : GoError E → M W E B)
      → Returns Q R x
      → ((a : A) (s : Sys W) → Q a s → Returns Q' R' (f a s))
      → ((e : GoError E) (s : Sys W) → R e s → Returns Q' R' (g e s))
      → Returns Q' R' (settle x.0 f g x.1)
  Returns-settle f g (done q) kf kg = kf _ _ q
  Returns-settle f g (fail r) kf kg = kg _ _ r

  pub Returns-attempt :
      (m : M W E A) (f : A → M W E B) (g : GoError E → M W E B) (s : Sys W)
      → Returns Q R (m s)
      → ((a : A) (s' : Sys W) → Q a s' → Returns Q' R' (f a s'))
      → ((e : GoError E) (s' : Sys W) → R e s' → Returns Q' R' (g e s'))
      → Returns Q' R' (attempt m f g s)
  unfolding attempt
  Returns-attempt m f g s h kf kg = Returns-settle f g h kf kg

module _ {W E A B : Type 0} {Q : A → Sys W → Type 0} {R : GoError E → Sys W → Type 0}
    {Q' : B → Sys W → Type 0} where
  -- After an error a `do` block does nothing more.
  pub Returns-bind :
      (m : M W E A) (f : A → M W E B) (s : Sys W)
      → Returns Q R (m s)
      → ((a : A) (s' : Sys W) → Q a s' → Returns Q' R (f a s'))
      → Returns Q' R ((m >>= f) s)
  unfolding ◌>>=◌
  Returns-bind m f s h kf = Returns-attempt m f raise s h kf (λ e s' r. fail r)

  pub Returns-then :
      (m : M W E A) (n : M W E B) (s : Sys W)
      → Returns Q R (m s)
      → ((a : A) (s' : Sys W) → Q a s' → Returns Q' R (n s'))
      → Returns Q' R ((m >> n) s)
  unfolding ◌>>◌
  Returns-then m n s h kn = Returns-bind m (λ _. n) s h kn

module _ {W E A : Type 0} {Q : A → Sys W → Type 0} {R : GoError E → Sys W → Type 0} where
  pub Returns-if :
      (b : Bool) (m n : M W E A) (s : Sys W)
      → Returns Q R (m s)
      → Returns Q R (n s)
      → Returns Q R ((if b then m else n) s)
  Returns-if true m n s h k = h
  Returns-if false m n s h k = k

module _ {W E A : Type 0} where
  pub Returns-trivial :
      (x : Result (GoError E) A × Sys W) → Returns (λ a s. Unit {0}) (λ e s. Unit {0}) x
  Returns-trivial (ok a, s) = done tt
  Returns-trivial (err e, s) = fail tt
