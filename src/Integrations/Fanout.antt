-- ===== src/Integrations/Fanout.antt =====
-- What the generic backend sends: internal/integrations/generic.go.
use kimo.Prelude.{
  ℕ, String, ◌==◌, eq_iff, none, List, [], ◌∷◌, ◌++◌, Map, lookup, insert, lookup-insert, map,
  select, Result, ok, ◌≡◌, refl, sym, ◌∙◌, arith, Bool-cases, inl, inr,
}
use mathlib.Core.List.{append-nil, append_assoc}
use kimo.Integrations.Event.{Event}
use kimo.Integrations.Http.{HttpCall, Wire, Client, send}
use kimo.Integrations.Generic.{
  GenericBackend, register_webhook, signed, post_signed, fan_out, notify,
}

-- No URL has two entries.
abbrev pub Distinct : Map String → Type 0
Distinct [] = Unit
Distinct ((k, v) ∷ m) = (lookup k m ≡ none) × Distinct m

insert-Distinct : (k v : String) (m : Map String) → Distinct m → Distinct (insert k v m)
unfolding insert lookup
insert-Distinct k v [] h = (refl, tt)
insert-Distinct k v ((j, w) ∷ m) (fresh, h) = elim (Bool-cases (j == k)) [
  | inl e ↦ rw e (ground (arith, eq_iff j k), h)
  | inr n ↦
      rw n (ground (arith, eq_iff j k, eq_iff k j, lookup-insert k j v m), insert-Distinct k v m h)
]

-- The calls to a URL.
abbrev pub calls_to : String → List HttpCall → List HttpCall
calls_to url = select (λ c. c.url == url)

module _ (hmac : String → String → List ℕ) (payload url : String) where
  calls_to-none :
      (m : Map String) → lookup url m ≡ none → calls_to url (map (signed hmac payload) m) ≡ []
  unfolding lookup
  calls_to-none [] e = refl
  calls_to-none ((j, w) ∷ m) e = ground (arith, eq_iff j url, calls_to-none m)

  calls_to-insert :
      (secret : String) (m : Map String)
      → Distinct m
      → calls_to url (map (signed hmac payload) (insert url secret m))
        ≡ signed hmac payload (url, secret) ∷ []
  unfolding insert
  calls_to-insert secret [] h = ground (arith, eq_iff url url)
  calls_to-insert secret ((j, w) ∷ m) (fresh, h) = elim (Bool-cases (j == url)) [
    | inl e ↦ rw e (ground (arith, eq_iff j url, eq_iff url url, calls_to-none m))
    | inr n ↦ rw n (ground (arith, eq_iff j url, calls_to-insert secret m h))
  ]

module _ (hmac : String → String → List ℕ) {W E : Type 0} (client : Client W E) where
  pub fan_out-sent :
      (hooks : Map String) (payload : String) (wire : Wire W)
      → (fan_out hmac client hooks payload wire).1.sent
        ≡ wire.sent ++ map (signed hmac payload) hooks
  unfolding fan_out post_signed send
  fan_out-sent [] payload wire = sym (append-nil wire.sent)
  fan_out-sent ((u, s) ∷ hooks) payload wire =
      let c = signed hmac payload (u, s) in
      let wire' = (send client c wire).1 in
      fan_out-sent hooks payload wire'
      ∙ append_assoc wire.sent (c ∷ []) (map (signed hmac payload) hooks)

-- Registering a webhook, then notifying: the URL gets exactly one call, with the encoded event,
-- signed with the secret that was registered last, however the other hooks answer. No two entries
-- have the same URL before, and none have afterwards.
pub notify-register :
    (hmac : String → String → List ℕ) {W E : Type 0} (client : Client W E)
    (encode : Event → Result E String) (b : GenericBackend) (url secret payload : String)
    (event : Event) (wire : Wire W)
    → Distinct b.hooks
    → encode event ≡ ok payload
    → wire.sent ≡ []
    → let after = notify hmac client encode (register_webhook url secret b) event wire in
      (calls_to url after.1.sent ≡ signed hmac payload (url, secret) ∷ [])
      × Distinct (register_webhook url secret b).hooks
unfolding notify register_webhook
notify-register hmac client encode b url secret payload event wire h e start =
    let sent = fan_out-sent hmac client (insert url secret b.hooks) payload wire in
    rw (notify, e, sent, start)
      (calls_to-insert hmac payload url secret b.hooks h, insert-Distinct url secret b.hooks h)
