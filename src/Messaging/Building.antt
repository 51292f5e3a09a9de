-- ===== src/Messaging/Building.antt =====
-- messaging.go, New: what an instance has that New returns.
use mathlib.Core.Path.{subst}
use go_messaging.Prelude.{◌≡◌, ◌≢◌, refl, ℤ, Option, some, none, List, []}
use go_messaging.Cipher.{Result, ok, err}
use go_messaging.Names.{assert_valid_name}
use go_messaging.Config.{Config, Options, Setting, with_defaults, apply_options}
use go_messaging.Config.Defaults.{
  IsReady, with_defaults-IsReady, with_defaults_idem, with_defaults_name,
}
use go_messaging.Crypto.Registry.{CipherRegistry}
use go_messaging.Store.{HeaderCodec}
use go_messaging.Messaging.{
  Messaging, build, new_store, new_messaging, continue, or_else, registry_of,
}

-- The instance runs on a name that the tables can have and on settings that are all set, its store on the same
-- ones, with a backoff and no handler yet.
pub record IsBuilt (m : Messaging) : Type 0 where
  pub named : assert_valid_name m.cfg.name ≡ ok tt
  pub settled : IsReady m.cfg
  pub shared : m.store.cfg ≡ m.cfg
  pub delays : m.backoff ≢ none
  pub unrouted : (m.handlers ≡ []) × (m.default_handler ≡ none)

or_else-set : {A : Type 0} (a b : Option A) → b ≢ none → or_else a b ≢ none
unfolding or_else
or_else-set none b h = h
or_else-set (some x) b h = λ e. cc

build-IsBuilt :
    (cfg : Config) (o : Options) (codec : HeaderCodec) (saturate : Option ℤ → ℤ)
    (cipher : Option CipherRegistry)
    → assert_valid_name cfg.name ≡ ok tt
    → IsBuilt (build (with_defaults cfg) o codec saturate cipher)
unfolding build new_store
build-IsBuilt cfg o codec saturate cipher named = record {
  named = rw (with_defaults_name cfg) named;
  settled = with_defaults-IsReady cfg;
  shared = with_defaults_idem cfg;
  delays =
      or_else-set o.backoff (with_defaults cfg).default_backoff (with_defaults-IsReady cfg).delays;
  unrouted = (refl, refl);
}

-- What New returns without an error is built, on the name that it was given.
pub new_messaging-IsBuilt :
    (cfg : Config) (settings : List Setting) (codec : HeaderCodec) (saturate : Option ℤ → ℤ)
    (m : Messaging)
    → new_messaging cfg settings codec saturate ≡ ok m
    → IsBuilt m × (m.cfg.name ≡ cfg.name)
unfolding new_messaging build
new_messaging-IsBuilt cfg settings codec saturate m made =
    by_name (assert_valid_name cfg.name) refl made
  where
    o : Options
    o = apply_options settings

    finish : Result (Option CipherRegistry) → Result Messaging
    finish x = continue x λ cipher. ok (build (with_defaults cfg) o codec saturate cipher)

    kept :
        (cipher : Option CipherRegistry)
        → (build (with_defaults cfg) o codec saturate cipher).cfg.name ≡ cfg.name
    kept cipher = with_defaults_name cfg

    by_cipher :
        (x : Result (Option CipherRegistry))
        → assert_valid_name cfg.name ≡ ok tt
        → finish x ≡ ok m
        → IsBuilt m × (m.cfg.name ≡ cfg.name)
    by_cipher (ok cipher) named e =
        let built : build (with_defaults cfg) o codec saturate cipher ≡ m = cc in
        subst (λ x. IsBuilt x × (x.cfg.name ≡ cfg.name)) built
          (build-IsBuilt cfg o codec saturate cipher named, kept cipher)
    by_cipher (err e') named e = absurd (cc)

    by_name :
        (x : Result (Unit {0}))
        → assert_valid_name cfg.name ≡ x
        → continue x (λ u. finish (registry_of o.ciphers o.current_cipher_version)) ≡ ok m
        → IsBuilt m × (m.cfg.name ≡ cfg.name)
    by_name (ok u) named e = by_cipher (registry_of o.ciphers o.current_cipher_version) named e
    by_name (err e') named e = absurd (cc)
