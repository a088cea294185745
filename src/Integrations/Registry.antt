-- ===== src/Integrations/Registry.antt =====
-- The registry of backends: `Register` and `New` of internal/integrations/backend.go.
use kimo.Prelude.{
  String, ◌<>◌, ◌==◌, eq_iff, Option, none, some, [], ◌∷◌, Map, lookup, Result, ok, err, is_ok, ◌≡◌,
  ◌≢◌, ◌↔◌, ◌⊎◌, true, inl, inr, arith, Result-cases, Bool-cases,
}
use kimo.Cluster.{GoError, text}
use kimo.Integrations.Generic.{GenericBackend, new_generic_backend}
use kimo.Integrations.Ctfd.{CtfdConfig, new_ctfd_backend}

-- The backends of the repository.
pub data ScoringBackend : Type 0 where
  generic : GenericBackend → ScoringBackend
  ctfd : CtfdConfig → ScoringBackend

abbrev pub Factory : Type 0 → Type 0
Factory E = String → Result (GoError E) ScoringBackend

abbrev built :
    {E A : Type 0} → (A → ScoringBackend) → Result (GoError E) A → Result (GoError E) ScoringBackend
built f (ok a) = ok (f a)
built f (err e) = err e

-- The configuration decodes, and names the address of a CTFd server.
abbrev pub HasAddress : {E : Type 0} → Result E CtfdConfig → Type 0
HasAddress (ok c) = c.base_url ≢ ""
HasAddress (err e) = ⊥

module _ {E : Type 0} (decode_generic : String → Result E String)
    (decode_ctfd : String → Result E CtfdConfig) where
  -- What the two `init` functions register.
  unfoldable pub registry : Map (Factory E)
  registry =
      ("generic", λ cfg. built generic (new_generic_backend decode_generic cfg))
      ∷ ("ctfd", λ cfg. built ctfd (new_ctfd_backend decode_ctfd cfg))
      ∷ []

  abbrev made_by : Option (Factory E) → String → String → Result (GoError E) ScoringBackend
  made_by none name cfg = err (text ("unknown scoring backend \"" <> name <> "\""))
  made_by (some factory) name cfg = factory cfg

  unfoldable pub new : String → String → Result (GoError E) ScoringBackend
  new name cfg = made_by (lookup name registry) name cfg

  generic-ok :
      (cfg : String)
      → (is_ok (built generic (new_generic_backend decode_generic cfg)) ≡ true)
        ↔ ((cfg ≡ "") ⊎ (is_ok (decode_generic cfg) ≡ true))
  unfolding new_generic_backend
  generic-ok cfg = ground (arith, eq_iff cfg "")

  ctfd-ok :
      (cfg : String)
      → (is_ok (built ctfd (new_ctfd_backend decode_ctfd cfg)) ≡ true)
        ↔ HasAddress (decode_ctfd cfg)
  unfolding new_ctfd_backend
  ctfd-ok cfg = elim (Result-cases (decode_ctfd cfg)) [
    | inl (c, e) ↦ rw (new_ctfd_backend, e) (ground (arith, eq_iff c.base_url ""))
    | inr (x, e) ↦ rw (new_ctfd_backend, e) (ground arith)
  ]

  -- The backends that can be made: the generic one from no configuration or one that decodes, and
  -- CTFd from a configuration that decodes and has the address of a CTFd server.
  new-ok_iff :
      (name cfg : String)
      → (is_ok (new name cfg) ≡ true) ↔ (
          ((name ≡ "generic") × ((cfg ≡ "") ⊎ (is_ok (decode_generic cfg) ≡ true)))
          ⊎ ((name ≡ "ctfd") × HasAddress (decode_ctfd cfg)))
  unfolding new registry lookup
  new-ok_iff name cfg = elim (Bool-cases ("generic" == name)) [
    | inl g ↦
        rw (new, g) (ground (arith, eq_iff "generic" name, eq_iff "generic" "ctfd", generic-ok cfg))
    | inr ng ↦ elim (Bool-cases ("ctfd" == name)) [
      | inl c ↦
          rw (new, ng, c) (ground (arith, eq_iff "generic" name, eq_iff "ctfd" name, ctfd-ok cfg))
      | inr nc ↦ rw (new, ng, nc) (ground (arith, eq_iff "generic" name, eq_iff "ctfd" name))
    ]
  ]
