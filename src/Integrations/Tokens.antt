-- ===== src/Integrations/Tokens.antt =====
-- Whom the CTFd backend lets in: `Authenticate` of internal/integrations/ctfd.go.
use kimo.Prelude.{
  String, ◌==◌, eq_iff, [], ◌∷◌, ◌++◌, Result, ok, err, ◌≡◌, ◌≢◌, ◌↔◌, refl, ap, inl, inr, arith,
  Bool-cases, eqb, if◌then◌else◌,
}
use kimo.Prelude.Int.{ℤ}
use kimo.Integrations.Backend.{Principal, HttpRequest}
use kimo.Integrations.Http.{HttpReply, Wire, Client, send}
use kimo.Integrations.Ctfd.{CtfdConfig, users_me, principal_of, decoded, identified, authenticate}

-- A body that decodes, to a user who is that principal.
abbrev pub IsUser : {E : Type 0} → Result E (String × ℤ) → Principal → Type 0
IsUser (err e) p = ⊥
IsUser (ok user) p = principal_of user ≡ p

module _ {E : Type 0} (decode : String → Result E (String × ℤ)) where
  -- CTFd's answer names a user.
  abbrev pub Names : Result E HttpReply → Principal → Type 0
  Names (err e) p = ⊥
  Names (ok reply) p = (reply.status ≡ 200) × IsUser (decode reply.body) p

  decoded_iff :
      {W : Type 0} (client : Client W E) (cfg : CtfdConfig) (user : Result E (String × ℤ))
      (p : Principal)
      → (decoded client cfg decode user ≡ ok p) ↔ IsUser user p
  decoded_iff client cfg (err e) p = (λ h. cc, λ h. absurd h)
  decoded_iff client cfg (ok user) p = (λ h. cc, λ h. ap ok h)

  identified_iff :
      {W : Type 0} (client : Client W E) (cfg : CtfdConfig) (r : Result E HttpReply) (p : Principal)
      → (identified client cfg decode r ≡ ok p) ↔ Names r p
  identified_iff client cfg (err e) p = (λ h. cc, λ h. absurd h)
  identified_iff client cfg (ok reply) p = elim (Bool-cases (eqb reply.status 200)) [
    | inl y ↦ rw y (ground (arith, decoded_iff client cfg (decode reply.body) p))
    | inr n ↦ rw n (ground arith)
  ]

-- A caller is let in as a principal exactly if it sends a token and CTFd, asked with that token for
-- the user that it belongs to, answers with status 200 and a body that names that principal. CTFd
-- is asked once if there is a token, and not at all if there is none.
pub authenticate_iff :
    {W E : Type 0} (client : Client W E) (cfg : CtfdConfig)
    (decode : String → Result E (String × ℤ)) (r : HttpRequest) (p : Principal) (wire : Wire W)
    → let after = authenticate client cfg decode r wire in
      ((after.0 ≡ ok p) ↔ (
        (r.authorization ≢ "")
        × Names decode (client (users_me cfg r.authorization) wire.world).0 p))
      × (after.1.sent ≡ (
          if r.authorization == ""
          then wire.sent
          else wire.sent ++ (users_me cfg r.authorization ∷ [])))
unfolding authenticate send
authenticate_iff client cfg decode r p wire = elim (Bool-cases (r.authorization == "")) [
  | inl none_given ↦ rw (authenticate, none_given) (ground (arith, eq_iff r.authorization ""), refl)
  | inr given ↦
      rw (authenticate, given)
        (
          ground (
            arith,
            eq_iff r.authorization "",
            identified_iff decode client cfg (client (users_me cfg r.authorization) wire.world).0 p,
          ),
          refl,
        )
]
