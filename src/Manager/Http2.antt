-- ===== src/Manager/Http2.antt =====
-- HTTP/2 on the servers of the manager: cmd/manager/main.go.
use kimo.Prelude.{
  String, ◌==◌, eq_iff, Bool, true, false, Option, none, some, List, [], ◌∷◌, ◌≡◌, refl, arith,
  Bool-cases, subst, sym, inl, inr, if◌then◌else◌,
}
use kimo.Manager.Flags.{
  Flags, default_flags, bool_var, further, parse_bool, Argument, set_flag, parse_flags,
}
use kimo.Manager.Options.{
  TlsConfig, tls_opts, webhook_server_options, metrics_server_options, manager_options,
}

-- Documented: the functions are applied to the server's TLS configuration one after the other.
abbrev pub configured : List (TlsConfig → TlsConfig) → TlsConfig → TlsConfig
configured [] c = c
configured (f ∷ fs) c = configured fs (f c)

abbrev is_true : Option Bool → Bool
is_true none = false
is_true (some b) = b

-- Whether HTTP/2 is asked for: the last value of the flag counts.
abbrev pub asks_http2 : Bool → List Argument → Bool
asks_http2 b [] = b
asks_http2 b (a ∷ rest) =
    asks_http2 (if a.name == "enable-http2" then is_true (parse_bool a.value) else b) rest

-- A flag that is set leaves the wish for HTTP/2 as it is.
record Keeps (f : Flags) (o : Option Flags) : Type 0 where
  at : (g : Flags) → o ≡ some g → g.enable_http2 ≡ f.enable_http2

Keeps-some : {f : Flags} (g : Flags) → g.enable_http2 ≡ f.enable_http2 → Keeps f (some g)
Keeps-some g h = record { at = λ g' e. ground arith }

Keeps-none : {f : Flags} → Keeps f none
Keeps-none = record { at = λ g e. cc }

Keeps-if :
    {f : Flags} (b : Bool) (x y : Option Flags)
    → Keeps f x
    → Keeps f y
    → Keeps f (if b then x else y)
Keeps-if true x y h k = h
Keeps-if false x y h k = k

Keeps-if_not :
    {f : Flags} (b : Bool) (x y : Option Flags)
    → b ≡ false
    → Keeps f y
    → Keeps f (if b then x else y)
Keeps-if_not b x y e h = rw e h

Keeps-bool_var :
    {f : Flags} (o : Option Bool) (set : Bool → Flags)
    → ((b : Bool) → (set b).enable_http2 ≡ f.enable_http2)
    → Keeps f (bool_var o set)
Keeps-bool_var none set h = Keeps-none
Keeps-bool_var (some b) set h = Keeps-some (set b) (h b)

ruleset keeps = (Keeps-some, Keeps-none, Keeps-if, Keeps-if_not, Keeps-bool_var, refl)

further-some :
    {g : Flags} (o : Option Flags) (go : Flags → Option Flags)
    → further o go ≡ some g
    → (f : Flags) × (o ≡ some f) × (go f ≡ some g)
further-some none go e = cc
further-some (some f) go e = (f, refl, e)

module _ (is_zap_flag : Argument → Bool) where
  set_flag-asked :
      (value : String) (f g : Flags)
      → set_flag is_zap_flag (record { name = "enable-http2"; value = value }) f ≡ some g
      → g.enable_http2 ≡ is_true (parse_bool value)
  unfolding set_flag
  set_flag-asked value f g e = asked (parse_bool value) e
    where
      asked :
          (o : Option Bool)
          → bool_var o (λ b. record f { enable_http2 = b }) ≡ some g
          → g.enable_http2 ≡ is_true o
      asked none h = cc
      asked (some b) h = ground arith

  set_flag-other :
      (a : Argument) (f : Flags)
      → (a.name == "enable-http2") ≡ false
      → Keeps f (set_flag is_zap_flag a f)
  unfolding set_flag
  set_flag-other a f n = search keeps depth 30

  set_flag-enable_http2 :
      (a : Argument) (f g : Flags)
      → set_flag is_zap_flag a f ≡ some g
      → g.enable_http2
        ≡ (if a.name == "enable-http2" then is_true (parse_bool a.value) else f.enable_http2)
  set_flag-enable_http2 a f g e = elim (Bool-cases (a.name == "enable-http2")) [
    | inl y ↦ rw y (
        set_flag-asked a.value f g (
          subst (λ n. set_flag is_zap_flag (record { name = n; value = a.value }) f ≡ some g)
            ((eq_iff a.name "enable-http2").0 y) e))
    | inr n ↦ rw n ((set_flag-other a f n).at g e)
  ]

  parse_flags-enable_http2 :
      (arguments : List Argument) (f g : Flags)
      → parse_flags is_zap_flag arguments f ≡ some g
      → g.enable_http2 ≡ asks_http2 f.enable_http2 arguments
  unfolding parse_flags
  parse_flags-enable_http2 [] f g e = ground arith
  parse_flags-enable_http2 (a ∷ rest) f g e =
      let (f', set, onward) = further-some (set_flag is_zap_flag a f) _ e in
      rw (sym (set_flag-enable_http2 a f f' set)) (parse_flags-enable_http2 rest f' g onward)

-- Of a command line that the manager accepts, the last value of the flag for HTTP/2 decides for the
-- webhook server and for the metrics server alike: asked for HTTP/2, it leaves their TLS
-- configuration as it is, and otherwise both servers speak HTTP/1.1 only.
pub servers-http2 :
    (is_zap_flag : Argument → Bool) (arguments : List Argument) (c : TlsConfig) {g : Flags}
    → parse_flags is_zap_flag arguments default_flags ≡ some g
    → let wanted =
        (if asks_http2 false arguments then c else record c { next_protos = "http/1.1" ∷ [] }) in
      (configured (manager_options g).webhook_server.tls_opts c ≡ wanted)
      × (configured (manager_options g).metrics.tls_opts c ≡ wanted)
unfolding manager_options webhook_server_options metrics_server_options tls_opts
servers-http2 is_zap_flag arguments c {g} e =
    let h = parse_flags-enable_http2 is_zap_flag arguments default_flags g e in
    elim (Bool-cases (asks_http2 false arguments)) [
      | inl y ↦ rw y (ground arith)
      | inr n ↦ rw n (ground arith)
    ]
