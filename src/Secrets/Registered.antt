-- ===== src/Secrets/Registered.antt =====
-- The registry of secrets under `Credentials.resolve` (credentials.py) and `register_secret`
-- (logging_.py).
use mathlib.Core.Path.{subst}
use adam_abundance.Base.{
  Result, ◌≡◌, refl, Bool, true, false, not, ◌&&◌, ◌||◌, Option, none, some, List, [], ◌∷◌, length,
  leb, ok, err, Bool-cases, All, sym, inl, inr, if◌then◌else◌,
}
use adam_abundance.Base.Text.{same_codes}
use adam_abundance.Users.Provision.{same_codes_refl}
use adam_abundance.Secrets.Vault.{
  CredentialError, Text, is_registered, register_secret, prime_redaction, Vault, SecretManager,
  is_hinted, looked_up, or_ask, cached, ask_by, value_of, settle, resolve,
}

abbrev pub Registered : Text → List Text → Type 0
Registered t secrets = leb 6 (length t) ≡ true → is_registered t secrets ≡ true

abbrev pub Grows : List Text → List Text → Type 0
Grows before after = (t : Text) → is_registered t before ≡ true → is_registered t after ≡ true

pub register_secret-Registered :
    (t : Text) (secrets : List Text) → Registered t (register_secret t secrets)
unfolding register_secret
register_secret-Registered t secrets h = elim (Bool-cases (is_registered t secrets)) [
  | inl e ↦ rw h (rw e e)
  | inr e ↦ rw h (rw e (rw (same_codes_refl t) refl))
]

or_true : (a b : Bool) → b ≡ true → (a || b) ≡ true
or_true true b h = refl
or_true false b h = h

add-Grows :
    (b : Bool) (t : Text) (secrets : List Text) → Grows secrets (if b then t ∷ secrets else secrets)
add-Grows true t secrets u h = or_true (same_codes u t) (is_registered u secrets) h
add-Grows false t secrets u h = h

pub register_secret-Grows :
    (t : Text) (secrets : List Text) → Grows secrets (register_secret t secrets)
unfolding register_secret
register_secret-Grows t secrets =
    add-Grows (leb 6 (length t) && not (is_registered t secrets)) t secrets

register_known :
    (t : Text) (secrets : List Text)
    → is_registered t secrets ≡ true
    → register_secret t secrets ≡ secrets
unfolding register_secret
register_known t secrets h = elim (Bool-cases (leb 6 (length t))) [
  | inl e ↦ rw e (rw h refl)
  | inr e ↦ rw e refl
]

register_short :
    (t : Text) (secrets : List Text)
    → leb 6 (length t) ≡ false
    → register_secret t secrets ≡ secrets
unfolding register_secret
register_short t secrets h = rw h refl

pub register_secret-register_secret :
    (t : Text) (secrets : List Text)
    → register_secret t (register_secret t secrets) ≡ register_secret t secrets
register_secret-register_secret t secrets = elim (Bool-cases (leb 6 (length t))) [
  | inl e ↦ register_known t (register_secret t secrets) (register_secret-Registered t secrets e)
  | inr e ↦ register_short t (register_secret t secrets) e
]

-- A long value of a hinted key.
unfoldable pub Primed : List (Text × Text) → List Text → Type 0
Primed values secrets = All (λ kv. is_hinted kv.0 ≡ true → Registered kv.1 secrets) values

prime_redaction-Grows :
    (values : List (Text × Text)) (secrets : List Text)
    → Grows secrets (prime_redaction values secrets)
unfolding prime_redaction
prime_redaction-Grows [] secrets u h = h
prime_redaction-Grows ((k, v) ∷ rest) secrets u h = elim (Bool-cases (is_hinted k)) [
  | inl e ↦ rw e (
      prime_redaction-Grows rest (register_secret v secrets) u
        (register_secret-Grows v secrets u h))
  | inr e ↦ rw e (prime_redaction-Grows rest secrets u h)
]

pub prime_redaction-Primed :
    (values : List (Text × Text)) (secrets : List Text)
    → Primed values (prime_redaction values secrets)
unfolding prime_redaction Primed
prime_redaction-Primed [] secrets = tt
prime_redaction-Primed ((k, v) ∷ rest) secrets = (
  (λ e h. rw e (
      prime_redaction-Grows rest (register_secret v secrets) v
        (register_secret-Registered v secrets h))),
  prime_redaction-Primed rest (if is_hinted k then register_secret v secrets else secrets),
)

module _ (w : SecretManager) where
  -- A look at the environment and the Secret Manager changes neither the registry nor the values.
  abbrev pub Kept : Vault → Vault → Type 0
  Kept v' v = (v'.secrets ≡ v.secrets) × (v'.values ≡ v.values)

  ask_by-Kept :
      (client installed connects : Bool) (project key : Text) (v : Vault)
      → Kept (ask_by w client installed connects project key v).1 v
  ask_by-Kept true installed connects project key v = (refl, refl)
  ask_by-Kept false false connects project key v = (refl, refl)
  ask_by-Kept false true true project key v = (refl, refl)
  ask_by-Kept false true false project key v = (refl, refl)

  or_ask-Kept :
      (r : Option (Option Text)) (project key : Text) (v : Vault)
      → Kept (or_ask w r project key v).1 v
  or_ask-Kept (some r) project key v = (refl, refl)
  or_ask-Kept none project key v =
      ask_by-Kept v.has_client w.installed (w.connects v.attempts) project key v

  pub looked_up-Kept :
      (val project : Option Text) (key : Text) (v : Vault)
      → Kept (looked_up w val project key v).1 v
  looked_up-Kept (some (c ∷ cs)) project key v = (refl, refl)
  looked_up-Kept none none key v = (refl, refl)
  looked_up-Kept (some []) none key v = (refl, refl)
  looked_up-Kept none (some p) key v = or_ask-Kept (cached key v.sm_cache) p key v
  looked_up-Kept (some []) (some p) key v = or_ask-Kept (cached key v.sm_cache) p key v

  settle-Grows :
      (key : Text) (required is_secret : Bool) (val : Result CredentialError (Option Text))
      (v : Vault)
      → Grows v.secrets (settle w key required is_secret val v).1.secrets
  settle-Grows key required true (ok (some (c ∷ cs))) v u h =
      register_secret-Grows (c ∷ cs) v.secrets u h
  settle-Grows key required false (ok (some (c ∷ cs))) v u h = h
  settle-Grows key required is_secret (err e) v u h = h
  settle-Grows key required is_secret (ok none) v u h = h
  settle-Grows key required is_secret (ok (some [])) v u h = h

  pub resolve-Grows :
      (key : Text) (required is_secret : Bool) (v : Vault)
      → Grows v.secrets (resolve w key required is_secret v).1.secrets
  unfolding resolve
  resolve-Grows key required is_secret v u h =
      let r = looked_up w (value_of key v.values) v.sm_project key v in
      settle-Grows key required is_secret r.0 r.1 u (
        subst (λ s. is_registered u s ≡ true)
          (sym ((looked_up-Kept (value_of key v.values) v.sm_project key v).0)) h)

  settle-Registered :
      (key : Text) (required : Bool) (val : Result CredentialError (Option Text)) (v : Vault)
      (t : Text)
      → (settle w key required true val v).0 ≡ ok (some t)
      → Registered t (settle w key required true val v).1.secrets
  settle-Registered key required (ok (some (c ∷ cs))) v t h =
      let e : (c ∷ cs) ≡ t = cc in
      subst (λ x. Registered x (register_secret (c ∷ cs) v.secrets)) e
        (register_secret-Registered (c ∷ cs) v.secrets)
  settle-Registered key required (err e) v t h = cc
  settle-Registered key true (ok none) v t h = cc
  settle-Registered key false (ok none) v t h = cc
  settle-Registered key true (ok (some [])) v t h = cc
  settle-Registered key false (ok (some [])) v t h = cc

  pub resolve-Registered :
      (key : Text) (required : Bool) (v : Vault) (t : Text)
      → (resolve w key required true v).0 ≡ ok (some t)
      → Registered t (resolve w key required true v).1.secrets
  unfolding resolve
  resolve-Registered key required v t =
      let r = looked_up w (value_of key v.values) v.sm_project key v in
      settle-Registered key required r.0 r.1 t
