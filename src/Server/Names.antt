-- ===== src/Server/Names.antt =====
-- The names of instances.
use Prim.Native.Char.{Char, code}
use text.Mathlib.TextLemmas.{
  append_assoc, append_cancel_left, nil-append, cons-append, head-eq_of_cons-eq, tail-eq_of_cons-eq,
}
use mathlib.Core.Path.{ap₂}
use kimo.Prelude.{
  eqb, ◌||◌, String, ◌<>◌, ◌≡◌, refl, sym, ap, ◌∙◌, ◌≢◌, inl, inr, Bool, true, false, ◌==◌, eq_iff,
  arith, Bool-cases, if◌then◌else◌,
}

unfoldable pub instance_name : String → String → String → String
instance_name template team player =
    let name = template <> "-" <> team in if player == "" then name else name <> "-" <> player

-- Two requests get the same name if one writes a player where the other has a longer team: the
-- player's instance of a team and the team's own instance of another team are not told apart.
pub instance_name-collides :
    (template team player : String)
    → player ≢ ""
    → instance_name template team player ≡ instance_name template (team <> "-" <> player) ""
unfolding instance_name
instance_name-collides template team player given =
    let e : (player == "") ≡ false = ground (arith, eq_iff player "") in rw e (simp append_assoc)

-- A text with no dash in it.
unfoldable pub has_dash : String → Bool
has_dash String.[] = false
has_dash (String.◌∷◌ c s) = eqb (code c) b'-' || has_dash s

abbrev dash : Char
dash = "-"

dash-append : (t : String) → "-" <> t ≡ String.◌∷◌ dash t
dash-append t = cons-append dash String.[] t ∙ ap (λ r. String.◌∷◌ dash r) (nil-append t)

-- The first dash splits a text in one way.
split_first :
    (s s' t t' : String)
    → has_dash s ≡ false
    → has_dash s' ≡ false
    → s <> "-" <> t ≡ s' <> "-" <> t'
    → (s ≡ s') × (t ≡ t')
unfolding has_dash
split_first String.[] String.[] t t' h h' e =
    (refl, append_cancel_left "-" t t' (sym (nil-append _) ∙ e ∙ nil-append _))
split_first String.[] (String.◌∷◌ c s') t t' h h' e =
    let split = sym (dash-append t) ∙ sym (nil-append _) ∙ e ∙ cons-append c s' ("-" <> t') in
    let same : b'-' ≡ code c = ap code (head-eq_of_cons-eq split) in absurd (ground arith)
split_first (String.◌∷◌ c s) String.[] t t' h h' e =
    let split = sym (dash-append t') ∙ sym (nil-append _) ∙ sym e ∙ cons-append c s ("-" <> t) in
    let same : b'-' ≡ code c = ap code (head-eq_of_cons-eq split) in absurd (ground arith)
split_first (String.◌∷◌ c s) (String.◌∷◌ c' s') t t' h h' e =
    let split = sym (cons-append c s ("-" <> t)) ∙ e ∙ cons-append c' s' ("-" <> t') in
    let same = head-eq_of_cons-eq split in
    let (rest, last) =
      split_first s s' t t' (ground arith) (ground arith) (tail-eq_of_cons-eq split) in
    (ap₂ (λ d r. String.◌∷◌ d r) same rest, last)

-- A team's name ends the name, or a dash and the player's name follow it.
has_dash-append : (s t : String) → has_dash (s <> "-" <> t) ≡ true
unfolding has_dash
has_dash-append String.[] t = rw (nil-append, dash-append t) refl
has_dash-append (String.◌∷◌ c s) t =
    rw (cons-append c s ("-" <> t)) (ground (arith, has_dash-append s t))

tail_of : String → String → String
tail_of team player = if player == "" then team else team <> "-" <> player

instance_name-tail :
    (template team player : String)
    → instance_name template team player ≡ template <> "-" <> tail_of team player
unfolding instance_name tail_of
instance_name-tail template team player = elim (Bool-cases (player == "")) [
  | inl none_given ↦ rw none_given refl
  | inr given ↦ rw given (simp append_assoc)
]

tail_of-injective :
    (team team' player player' : String)
    → has_dash team ≡ false
    → has_dash team' ≡ false
    → tail_of team player ≡ tail_of team' player'
    → (team ≡ team') × (player ≡ player')
unfolding tail_of
tail_of-injective team team' player player' h h' e = elim (Bool-cases (player == "")) [
  | inl n ↦ elim (Bool-cases (player' == "")) [
    | inl n' ↦ ground (arith, eq_iff player "", eq_iff player' "")
    | inr p' ↦ let contra = has_dash-append team' player' in ground (arith)
  ]
  | inr p ↦ elim (Bool-cases (player' == "")) [
    | inl n' ↦ let contra = has_dash-append team player in ground (arith)
    | inr p' ↦ split_first team team' player player' h h' (ground (arith))
  ]
]

-- Where templates and teams have no dash in their names, the name of an instance tells its
-- template, its team and its player.
pub instance_name-injective :
    (template template' team team' player player' : String)
    → has_dash template ≡ false
    → has_dash template' ≡ false
    → has_dash team ≡ false
    → has_dash team' ≡ false
    → instance_name template team player ≡ instance_name template' team' player'
    → (template ≡ template') × (team ≡ team') × (player ≡ player')
instance_name-injective template template' team team' player player' h h' k k' e =
    let (same, rest) =
      split_first template template' (tail_of team player) (tail_of team' player') h h' (
        sym (instance_name-tail template team player)
        ∙ e
        ∙ instance_name-tail template' team' player') in
    let (teams, players) = tail_of-injective team team' player player' k k' rest in
    (same, teams, players)
