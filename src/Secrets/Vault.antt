-- ===== src/Secrets/Vault.antt =====
-- `Credentials` of credentials.py and `register_secret` of logging_.py. A text is its code points,
-- and an upper-case letter is one of ASCII. The registry is a field of the state; what the Secret
-- Manager answers to a request, none where it raises, and whether its client can be built, are
-- parameters and may change from one request to the next.
use adam_abundance.Base.{
  ℕ, ◌+◌, ◌-◌, String, Bool, true, false, not, ◌&&◌, ◌||◌, Option, none, some, List, [], ◌∷◌, ◌++◌,
  any, map, length, leb, ◌==◌, if◌then◌else◌, keep, Result,
}
use adam_abundance.Base.Text.{codes, same_codes}

abbrev pub Text : Type 0
Text = List ℕ

abbrev pub min_secret_len : ℕ
min_secret_len = 6

abbrev pub is_registered : Text → List Text → Bool
is_registered t secrets = any (same_codes t) secrets

unfoldable pub register_secret : Text → List Text → List Text
register_secret t secrets =
    if leb min_secret_len (length t) && not (is_registered t secrets) then t ∷ secrets else secrets

-- `requests` counts the requests to the Secret Manager so far, `attempts` those to build its client.
pub record Vault : Type 0 where
  pub values : List (Text × Text)
  pub sm_project : Option Text
  pub sm_cache : List (Text × Option Text)
  pub secrets : List Text
  pub requests : ℕ
  pub has_client : Bool
  pub attempts : ℕ

pub record SecretManager : Type 0 where
  pub installed : Bool
  pub connects : ℕ → Bool
  pub access : ℕ → Text → Text → Option Text

pub data CredentialError : Type 0 where
  missing_credential : Text → CredentialError
  client_unavailable : CredentialError

abbrev pub value_of : Text → List (Text × Text) → Option Text
value_of k [] = none
value_of k ((j, v) ∷ rest) = let found = value_of k rest in if same_codes j k then some v else found

abbrev pub cached : Text → List (Text × Option Text) → Option (Option Text)
cached k [] = none
cached k ((j, v) ∷ rest) = let found = cached k rest in if same_codes j k then some v else found

abbrev pub upper_code : ℕ → ℕ
upper_code c = if leb b'a' c && leb c b'z' then c - 32 else c

abbrev pub upper : Text → Text
upper = map upper_code

abbrev pub is_prefix : Text → Text → Bool
is_prefix [] t = true
is_prefix (c ∷ cs) [] = false
is_prefix (c ∷ cs) (d ∷ ds) = c == d && is_prefix cs ds

-- `hint in k`
abbrev pub is_within : Text → Text → Bool
is_within hint [] = is_prefix hint []
is_within hint (c ∷ cs) = is_prefix hint (c ∷ cs) || is_within hint cs

abbrev pub secret_hints : List String
secret_hints =
    "KEY" ∷ "TOKEN" ∷ "SECRET" ∷ "PASSWORD" ∷ "PAT" ∷ "REFRESH" ∷ "WEBHOOK" ∷ "PRIVATE"
    ∷ "CREDENTIAL" ∷ "ACCESS_KEY" ∷ "SESSION" ∷ "APP_PASSWORD" ∷ []

abbrev pub is_hinted : Text → Bool
is_hinted k = any (λ h. is_within (codes h) (upper k)) secret_hints

unfoldable pub prime_redaction : List (Text × Text) → List Text → List Text
prime_redaction [] secrets = secrets
prime_redaction ((k, v) ∷ rest) secrets =
    prime_redaction rest (if is_hinted k then register_secret v secrets else secrets)

abbrev pub given : List (Text × Option Text) → List (Text × Text)
given [] = []
given ((k, none) ∷ rest) = given rest
given ((k, some v) ∷ rest) = (k, v) ∷ given rest

-- The file first, then the environment over it.
abbrev pub merged : List (Text × Option Text) → List (Text × Text) → List (Text × Text)
merged file environ =
    environ ++ keep (λ kv. not (any (λ e. same_codes e.0 kv.0) environ)) (given file)

-- `x or None`
abbrev pub unless_empty : Option Text → Option Text
unless_empty (some (c ∷ cs)) = some (c ∷ cs)
unless_empty _ = none

unfoldable pub credentials : List (Text × Option Text) → List (Text × Text) → List Text → Vault
unfolding prime_redaction
credentials file environ secrets = record {
  values = merged file environ;
  sm_project = unless_empty (value_of (codes "SECRETS_MANAGER_PROJECT") (merged file environ));
  sm_cache = [];
  secrets = prime_redaction (merged file environ) secrets;
  requests = 0;
  has_client = false;
  attempts = 0;
}

module _ (w : SecretManager) where
  abbrev pub remembered : Text → Option Text → Vault → Result CredentialError (Option Text) × Vault
  remembered key r v = (Result.ok r, record v { sm_cache = (key, r) ∷ v.sm_cache })

  abbrev pub answer : Text → Text → Vault → Result CredentialError (Option Text) × Vault
  answer project key v =
      remembered key (w.access v.requests project key) (record v { requests = v.requests + 1 })

  -- With a client, without the library, which switches the backend off, and where the client is
  -- built now. Its building stands outside the `try`, so what it raises leaves the resolver, and
  -- nothing is cached.
  abbrev pub ask_by :
      Bool → Bool → Bool → Text → Text → Vault → Result CredentialError (Option Text) × Vault
  ask_by true installed connects project key v = answer project key v
  ask_by false false connects project key v = remembered key none (record v { sm_project = none })
  ask_by false true true project key v =
      answer project key (record v { has_client = true; attempts = v.attempts + 1 })
  ask_by false true false project key v =
      (Result.err client_unavailable, record v { attempts = v.attempts + 1 })

  abbrev pub ask : Text → Text → Vault → Result CredentialError (Option Text) × Vault
  ask project key v = ask_by v.has_client w.installed (w.connects v.attempts) project key v

  abbrev pub or_ask :
      Option (Option Text) → Text → Text → Vault → Result CredentialError (Option Text) × Vault
  or_ask (some r) project key v = (Result.ok r, v)
  or_ask none project key v = ask project key v

  abbrev pub sm_get : Text → Text → Vault → Result CredentialError (Option Text) × Vault
  sm_get project key v = or_ask (cached key v.sm_cache) project key v

  -- The environment, then the Secret Manager for what it does not hold or holds empty.
  abbrev pub looked_up :
      Option Text → Option Text → Text → Vault → Result CredentialError (Option Text) × Vault
  looked_up (some (c ∷ cs)) project key v = (Result.ok (some (c ∷ cs)), v)
  looked_up val none key v = (Result.ok val, v)
  looked_up val (some project) key v = sm_get project key v

  abbrev pub settle :
      Text
      → Bool
      → Bool
      → Result CredentialError (Option Text)
      → Vault
      → Result CredentialError (Option Text) × Vault
  settle key required secret (Result.ok (some (c ∷ cs))) v = (
    Result.ok (some (c ∷ cs)),
    if secret then record v { secrets = register_secret (c ∷ cs) v.secrets } else v,
  )
  settle key required secret (Result.err e) v = (Result.err e, v)
  settle key required secret _ v =
      (if required then Result.err (missing_credential key) else Result.ok none, v)

  unfoldable pub resolve : Text → Bool → Bool → Vault → Result CredentialError (Option Text) × Vault
  unfolding register_secret
  resolve key required secret v =
      let (val, v') = looked_up (value_of key v.values) v.sm_project key v in
      settle key required secret val v'

unfoldable pub has : Text → Vault → Bool
has key v = elim (unless_empty (value_of key v.values)) [ none ↦ false | some t ↦ true ]
