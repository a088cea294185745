-- ===== src/Server/Issued.antt =====
-- From a puzzle that the API hands out to its redemption: `handlePoWChallenge` and `consumePoW` of
-- internal/api/handlers.go.
use kimo.Prelude.{ℕ, String, eq_iff, true, some, List, ◌∷◌, ◌≡◌, ◌↔◌, ◌≢◌, refl, ok, arith}
use kimo.Prelude.Int.{pos, ◌+ℤ◌, ◌≤ℤ◌}
use kimo.Instance.Reconcile.{seconds}
use kimo.Types.{ChallengeTemplate, PowSpec}
use kimo.Cluster.{Api, get_template, Sys, effects}
use kimo.Pow.{generate_pow_puzzle, hex, preimage, count_leading_zero_bits}
use kimo.Server.State.{puzzle, write_json, State, calling}
use kimo.Server.Puzzles.{consume_pow, store_pow, consume-IsSolved}
use kimo.Server.Handlers.{named, with_template, issue, puzzle_for, pow_challenge}

-- The state after the template was read.
abbrev after_read : {W E : Type 0} → Api W E → String → State W → State W
after_read api name st = record st {
  sys = record {
    world = (api.get_template (named name) st.sys.world).1;
    log = record { request = get_template (named name); succeeded = true } ∷ st.sys.log;
  };
}

read_then_issue :
    {W E : Type 0} (api : Api W E) (name : String) (st : State W) {t : ChallengeTemplate}
    {spec : PowSpec}
    → name ≢ ""
    → (api.get_template (named name) st.sys.world).0 ≡ ok t
    → t.spec.pow ≡ some spec
    → spec.enabled ≡ true
    → pow_challenge api name st ≡ issue api spec (after_read api name st)
unfolding pow_challenge with_template puzzle_for calling effects
read_then_issue api name st given found asked enabled = ground (arith, eq_iff name "")

-- A request for a puzzle of a template that asks for one is answered with the puzzle of the random
-- bytes. Whatever the cluster does in the meantime, the first attempt at it redeems it exactly if
-- it comes at most 300 seconds after the puzzle was made, and the hash of the challenge and the
-- nonce has at least as many leading zero bits as the template asks for.
pub pow_challenge-redeems :
    {W E : Type 0} (sha256 : String → List ℕ) (api : Api W E) (name : String) (nonce : ℕ)
    (st : State W) (later : Sys W) {t : ChallengeTemplate} {spec : PowSpec}
    → let w = (api.get_template (named name) st.sys.world).1 in
      let w' = (api.random w).1 in
      let p = generate_pow_puzzle spec.difficulty (api.random w).0 (api.clock w') in
      let (answer, after) = pow_challenge api name st in
      name ≢ ""
      → (api.get_template (named name) st.sys.world).0 ≡ ok t
      → t.spec.pow ≡ some spec
      → spec.enabled ≡ true
      → (answer ≡ write_json 200 (puzzle p))
        × (((consume_pow sha256 api p.challenge nonce (record after { sys = later })).0 ≡ true) ↔ (
            (api.clock later.world ≤ℤ api.clock w' +ℤ seconds 300)
            × (spec.difficulty
                ≤ℤ pos (count_leading_zero_bits (sha256 (preimage (hex (api.random w).0) nonce))))))
unfolding generate_pow_puzzle
pow_challenge-redeems sha256 api name nonce st later {t} {spec} given found asked enabled =
    let read = read_then_issue api name st given found asked enabled in
    rw read (
      unfold issue store_pow in
      (refl, consume-IsSolved sha256 api _ nonce (record (after_read api name st) { sys = later })))
