-- ===== src/Server/Spending.antt =====
-- Puzzles under requests that overlap: `storePow` and `consumePow` of internal/api/handlers.go, each
-- of which holds the mutex of the server while it looks at the map of puzzles.
use kimo.Prelude.{
  ℕ, ◌+◌, ◌≤◌, String, ◌==◌, eq_iff, Bool, false, Option, none, some, List, [], ◌∷◌, ap, arith,
  lookup, lookup-insert, if◌then◌else◌, Bool-cases, inl, inr,
}
use kimo.Cluster.{Api, Sys}
use kimo.Pow.{PowPuzzle}
use kimo.Server.State.{State}
use kimo.Server.Puzzles.{verdict, store_pow, consume_pow, consume_pow-verdict}

-- What may happen to the server: a puzzle is handed out, a solution is sent in, and in between the
-- world may change in any way.
pub data Access (W : Type 0) : Type 0 where
  issued : PowPuzzle → Access W
  attempted : String → ℕ → Access W
  meanwhile : Sys W → Access W

abbrev pub one_if : Bool → ℕ
one_if b = if b then 1 else 0

abbrev is_there : Option PowPuzzle → ℕ
is_there none = 0
is_there (some p) = 1

-- The puzzles that wait under a challenge: one or none.
abbrev pub waiting : {W : Type 0} → String → State W → ℕ
waiting challenge st = is_there (lookup challenge st.puzzles)

module _ {W : Type 0} where
  abbrev issues_at : String → Access W → ℕ
  issues_at challenge (issued p) = one_if (p.challenge == challenge)
  issues_at challenge _ = 0

  -- How often a puzzle is handed out under a challenge.
  abbrev pub issues : String → List (Access W) → ℕ
  issues challenge [] = 0
  issues challenge (a ∷ rest) = issues_at challenge a + issues challenge rest

module _ {W E : Type 0} (sha256 : String → List ℕ) (api : Api W E) where
  abbrev pub access : Access W → State W → Bool × State W
  access (issued p) st = (false, store_pow p st)
  access (attempted challenge nonce) st = consume_pow sha256 api challenge nonce st
  access (meanwhile sys) st = (false, record st { sys = sys })

  abbrev won : String → Access W → Bool → ℕ
  won challenge (attempted tried nonce) success = if tried == challenge then one_if success else 0
  won challenge _ success = 0

  -- How often a solution for a challenge is accepted.
  abbrev pub redemptions : String → List (Access W) → State W → ℕ
  redemptions challenge [] st = 0
  redemptions challenge (a ∷ rest) st =
      let (success, st') = access a st in won challenge a success + redemptions challenge rest st'

  verdict-false :
      (o : Option PowPuzzle) (nonce : ℕ) (st : State W)
      → one_if (verdict sha256 o nonce (api.clock st.sys.world)) ≤ is_there o
  verdict-false none nonce st = omega arith
  verdict-false (some p) nonce st = ground arith

  access-pays :
      (challenge : String) (a : Access W) (st : State W)
      → won challenge a (access a st).0 + waiting challenge (access a st).1
        ≤ issues_at challenge a + waiting challenge st
  unfolding store_pow
  access-pays challenge (issued p) st =
      let stored = lookup-insert p.challenge challenge p st.puzzles in ground arith
  access-pays challenge (attempted tried nonce) st =
      let (e, gone) = consume_pow-verdict sha256 api tried challenge nonce st in
      let bound = verdict-false (lookup tried st.puzzles) nonce st in
      elim (Bool-cases (tried == challenge)) [
        | inl y ↦
            let found = ap (λ (k : String). lookup k st.puzzles) ((eq_iff tried challenge).0 y) in
            rw y (ground arith)
        | inr n ↦ rw n (ground arith)
      ]
  access-pays challenge (meanwhile sys) st = omega arith

  -- However requests overlap, and whatever happens in between: solutions for a challenge are
  -- accepted at most as often as puzzles were handed out under it, those that wait at the start
  -- included. A solution that is sent twice, or by two callers at once, pays once.
  pub redemptions-le-issues :
      (challenge : String) (accesses : List (Access W)) (st : State W)
      → redemptions challenge accesses st ≤ issues challenge accesses + waiting challenge st
  redemptions-le-issues challenge [] st = omega arith
  redemptions-le-issues challenge (a ∷ rest) st =
      let now = access-pays challenge a st in
      let later = redemptions-le-issues challenge rest (access a st).1 in omega (arith, now, later)
