-- ===== src/Server/Puzzles.antt =====
-- The proof-of-work puzzles of the server: `storePoW` and `consumePoW` of internal/api/handlers.go.
use kimo.Prelude.{
  ℕ, String, ◌≡◌, refl, ◌↔◌, sym, subst, Bool, true, false, Option, none, some, List, ◌==◌, eq_iff,
  arith, lookup, insert, delete, lookup-insert, lookup-delete, if◌then◌else◌,
}
use kimo.Prelude.Int.{pos, ◌≤ℤ◌, ltb_ℤ}
use kimo.Types.{Time}
use kimo.Cluster.{Api}
use kimo.Pow.{PowPuzzle, verify_pow, preimage, count_leading_zero_bits}
use kimo.Server.State.{State, Action}

module _ {W : Type 0} where
  unfoldable pub store_pow : PowPuzzle → State W → State W
  store_pow p st = record st { puzzles = insert p.challenge p st.puzzles }

module _ (sha256 : String → List ℕ) where
  -- The verdict on a puzzle at a time: it must not have expired, and the nonce must solve it.
  unfoldable pub redeems : PowPuzzle → ℕ → Time → Bool
  redeems p nonce now =
      if ltb_ℤ p.expires_at now then false else verify_pow sha256 p.challenge nonce p.difficulty

  -- The same where no puzzle may be there.
  abbrev pub verdict : Option PowPuzzle → ℕ → Time → Bool
  verdict none nonce now = false
  verdict (some p) nonce now = redeems p nonce now

  module _ {W E : Type 0} (api : Api W E) where
    consume_found : Option PowPuzzle → String → ℕ → Action W Bool
    consume_found none challenge nonce st = (false, st)
    consume_found (some p) challenge nonce st = (
      redeems p nonce (api.clock st.sys.world),
      record st { puzzles = delete challenge st.puzzles },
    )

    unfoldable pub consume_pow : String → ℕ → Action W Bool
    unfolding consume_found
    consume_pow challenge nonce st = consume_found (lookup challenge st.puzzles) challenge nonce st

module _ {W E : Type 0} (sha256 : String → List ℕ) (api : Api W E) where
  consume_found-lookup :
      (o : Option PowPuzzle) (challenge other : String) (nonce : ℕ) (st : State W)
      → lookup challenge st.puzzles ≡ o
      → ((consume_found sha256 api o challenge nonce st).0
          ≡ verdict sha256 o nonce (api.clock st.sys.world))
        × (lookup other (consume_found sha256 api o challenge nonce st).1.puzzles
            ≡ (if challenge == other then none else lookup other st.puzzles))
  unfolding consume_found
  consume_found-lookup none challenge other nonce st e =
      (refl, ground (arith, eq_iff challenge other))
  consume_found-lookup (some p) challenge other nonce st e =
      (refl, lookup-delete challenge other st.puzzles)

-- The verdict, and what is left in the map.
pub consume_pow-verdict :
    {W E : Type 0} (sha256 : String → List ℕ) (api : Api W E) (challenge other : String) (nonce : ℕ)
    (st : State W)
    → ((consume_pow sha256 api challenge nonce st).0
        ≡ verdict sha256 (lookup challenge st.puzzles) nonce (api.clock st.sys.world))
      × (lookup other (consume_pow sha256 api challenge nonce st).1.puzzles
          ≡ (if challenge == other then none else lookup other st.puzzles))
unfolding consume_pow
consume_pow-verdict sha256 api challenge other nonce st =
    consume_found-lookup sha256 api (lookup challenge st.puzzles) challenge other nonce st refl

-- A solution can be used once: after an attempt at a challenge each other attempt at it fails,
-- with whatever nonce, and whether or not the first one succeeded.
pub consume_pow_once :
    {W E : Type 0} (sha256 : String → List ℕ) (api : Api W E) (challenge : String)
    (nonce nonce' : ℕ) (st : State W)
    → (consume_pow sha256 api challenge nonce' (consume_pow sha256 api challenge nonce st).1).0
      ≡ false
consume_pow_once sha256 api challenge nonce nonce' st =
    let after = (consume_pow sha256 api challenge nonce st).1 in
    let gone = (consume_pow-verdict sha256 api challenge challenge nonce st).1 in
    let e = (consume_pow-verdict sha256 api challenge challenge nonce' after).0 in
    ground (arith, eq_iff challenge challenge)

-- A puzzle that was issued is redeemed by a nonce exactly if the nonce solves it in time.
pub consume-store :
    {W E : Type 0} (sha256 : String → List ℕ) (api : Api W E) (p : PowPuzzle) (nonce : ℕ)
    (st : State W)
    → (consume_pow sha256 api p.challenge nonce (store_pow p st)).0
      ≡ redeems sha256 p nonce (api.clock st.sys.world)
consume-store sha256 api p nonce st =
    let e = (consume_pow-verdict sha256 api p.challenge p.challenge nonce (store_pow p st)).0 in
    let stored = lookup-insert p.challenge p.challenge p st.puzzles in
    unfold store_pow in ground (arith, eq_iff p.challenge p.challenge)

module _ {W E : Type 0} (sha256 : String → List ℕ) (api : Api W E) where
  consume_found-sys :
      (o : Option PowPuzzle) (challenge : String) (nonce : ℕ) (st : State W)
      → (consume_found sha256 api o challenge nonce st).1.sys ≡ st.sys
  unfolding consume_found
  consume_found-sys none challenge nonce st = refl
  consume_found-sys (some p) challenge nonce st = refl

  pub consume_pow-sys :
      (challenge : String) (nonce : ℕ) (st : State W)
      → (consume_pow sha256 api challenge nonce st).1.sys ≡ st.sys
  unfolding consume_pow
  consume_pow-sys challenge nonce st =
      consume_found-sys (lookup challenge st.puzzles) challenge nonce st

-- A nonce solves a puzzle in time: the puzzle has not expired, and the hash of its challenge and the
-- nonce starts with at least as many zero bits as it asks for.
abbrev pub IsSolved : (String → List ℕ) → PowPuzzle → ℕ → Time → Type 0
IsSolved sha256 p nonce now =
    (now ≤ℤ p.expires_at)
    × (p.difficulty ≤ℤ pos (count_leading_zero_bits (sha256 (preimage p.challenge nonce))))

redeems-IsSolved :
    (sha256 : String → List ℕ) (p : PowPuzzle) (nonce : ℕ) (now : Time)
    → (redeems sha256 p nonce now ≡ true) ↔ IsSolved sha256 p nonce now
unfolding redeems verify_pow
redeems-IsSolved sha256 p nonce now = ground arith

verdict-IsSolved :
    (sha256 : String → List ℕ) (o : Option PowPuzzle) (nonce : ℕ) (now : Time)
    → (verdict sha256 o nonce now ≡ true)
      ↔ ((p : PowPuzzle) × (o ≡ some p) × IsSolved sha256 p nonce now)
verdict-IsSolved sha256 none nonce now = (λ e. cc, λ (p, e, h). cc)
verdict-IsSolved sha256 (some q) nonce now =
    let (to, from) = redeems-IsSolved sha256 q nonce now in
    (
      λ e. (q, refl, to e),
      λ (p, e, h). from (subst (λ x. IsSolved sha256 x nonce now) (sym (some-injective e)) h),
    )
  where
    some-injective : {p : PowPuzzle} → some q ≡ some p → q ≡ p
    some-injective e = cc

-- An attempt succeeds exactly if a puzzle is stored under its challenge, the clock is not past its
-- expiry, and the hash of its challenge and the nonce has at least as many leading zero bits as its
-- difficulty. Whether or not it succeeds, there is no puzzle under that challenge afterwards, and
-- the other puzzles stay.
pub consume_pow-exact :
    {W E : Type 0} (sha256 : String → List ℕ) (api : Api W E) (challenge other : String) (nonce : ℕ)
    (st : State W)
    → (((consume_pow sha256 api challenge nonce st).0 ≡ true) ↔ (
        (p : PowPuzzle) × (lookup challenge st.puzzles ≡ some p)
        × IsSolved sha256 p nonce (api.clock st.sys.world)))
      × (lookup other (consume_pow sha256 api challenge nonce st).1.puzzles
          ≡ (if challenge == other then none else lookup other st.puzzles))
consume_pow-exact sha256 api challenge other nonce st =
    let (e, rest) = consume_pow-verdict sha256 api challenge other nonce st in
    (
      subst
          (λ b. (b ≡ true) ↔ (
            (p : PowPuzzle) × (lookup challenge st.puzzles ≡ some p)
            × IsSolved sha256 p nonce (api.clock st.sys.world)))
          (sym e)
          (verdict-IsSolved sha256 (lookup challenge st.puzzles) nonce (api.clock st.sys.world)),
      rest,
    )

-- The same for a puzzle that was just stored.
pub consume-IsSolved :
    {W E : Type 0} (sha256 : String → List ℕ) (api : Api W E) (p : PowPuzzle) (nonce : ℕ)
    (st : State W)
    → ((consume_pow sha256 api p.challenge nonce (store_pow p st)).0 ≡ true)
      ↔ IsSolved sha256 p nonce (api.clock st.sys.world)
consume-IsSolved sha256 api p nonce st =
    subst (λ b. (b ≡ true) ↔ IsSolved sha256 p nonce (api.clock st.sys.world))
      (sym (consume-store sha256 api p nonce st))
      (redeems-IsSolved sha256 p nonce (api.clock st.sys.world))
