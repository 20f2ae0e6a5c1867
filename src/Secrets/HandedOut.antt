-- ===== src/Secrets/HandedOut.antt =====
-- Sequences of requests to `Credentials.resolve` (credentials.py).
use adam_abundance.Base.{
  ◌≡◌, refl, Bool, true, false, Option, none, some, List, [], ◌∷◌, ◌++◌, Result, ok, err, All,
  All-append,
}
use adam_abundance.Secrets.Vault.{
  Text, Vault, SecretManager, CredentialError, resolve, merged, credentials,
}
use adam_abundance.Secrets.Registered.{
  Registered, Grows, Primed, prime_redaction-Primed, resolve-Grows, resolve-Registered,
}

-- The secrets that a sequence of requests hands out, and the state after it. A request is a key,
-- whether it is required and whether it is a secret.
abbrev handed_out : Bool → Result CredentialError (Option Text) → List Text
handed_out true (ok (some t)) = t ∷ []
handed_out _ _ = []

pub resolve_all : SecretManager → List (Text × Bool × Bool) → Vault → List Text × Vault
resolve_all w [] v = ([], v)
resolve_all w ((key, required, is_secret) ∷ rest) v =
    let (a, v') = resolve w key required is_secret v in
    let (ts, u) = resolve_all w rest v' in (handed_out is_secret a ++ ts, u)

resolve_all-Grows :
    (w : SecretManager) (rs : List (Text × Bool × Bool)) (v : Vault)
    → Grows v.secrets (resolve_all w rs v).1.secrets
unfolding resolve_all
resolve_all-Grows w [] v u h = h
resolve_all-Grows w ((key, required, is_secret) ∷ rest) v u h =
    resolve_all-Grows w rest (resolve w key required is_secret v).1 u
      (resolve-Grows w key required is_secret v u h)

handed_out-Registered :
    (b : Bool) (a : Result CredentialError (Option Text)) (now after : List Text)
    → ((t : Text) → b ≡ true → a ≡ ok (some t) → Registered t now)
    → Grows now after
    → All (λ t. Registered t after) (handed_out b a)
handed_out-Registered true (ok (some t)) now after h g = ((λ l. g t (h t refl refl l)), tt)
handed_out-Registered true (ok none) now after h g = tt
handed_out-Registered true (err e) now after h g = tt
handed_out-Registered false a now after h g = tt

resolve-secret :
    (w : SecretManager) (key : Text) (required is_secret : Bool) (v : Vault) (t : Text)
    → is_secret ≡ true
    → (resolve w key required is_secret v).0 ≡ ok (some t)
    → Registered t (resolve w key required is_secret v).1.secrets
resolve-secret w key required true v t e = resolve-Registered w key required v t
resolve-secret w key required false v t e = cc

resolve_all-Registered :
    (w : SecretManager) (rs : List (Text × Bool × Bool)) (v : Vault)
    → All (λ t. Registered t (resolve_all w rs v).1.secrets) (resolve_all w rs v).0
unfolding resolve_all
resolve_all-Registered w [] v = tt
resolve_all-Registered w ((key, required, is_secret) ∷ rest) v =
    let r = resolve w key required is_secret v in
    All-append (λ t. Registered t (resolve_all w rest r.1).1.secrets) (handed_out is_secret r.0)
      (resolve_all w rest r.1).0
      (handed_out-Registered is_secret r.0 r.1.secrets (resolve_all w rest r.1).1.secrets
        (resolve-secret w key required is_secret v) (resolve_all-Grows w rest r.1))
      (resolve_all-Registered w rest r.1)

Primed-Grows :
    (values : List (Text × Text)) (now after : List Text)
    → Grows now after
    → Primed values now
    → Primed values after
unfolding Primed
Primed-Grows [] now after g h = tt
Primed-Grows ((k, v) ∷ rest) now after g (h, hs) =
    ((λ e l. g v (h e l)), Primed-Grows rest now after g hs)

-- After the credentials are read and any sequence of requests, the registry holds every value of at
-- least six characters under a key that hints at a secret, and every secret of at least six
-- characters that a request handed out.
pub resolve_all_lem :
    (w : SecretManager) (file : List (Text × Option Text)) (environ : List (Text × Text))
    (secrets : List Text) (rs : List (Text × Bool × Bool))
    → let r = resolve_all w rs (credentials file environ secrets) in
      Primed (merged file environ) r.1.secrets × All (λ t. Registered t r.1.secrets) r.0
unfolding credentials
resolve_all_lem w file environ secrets rs =
    let v = credentials file environ secrets in
    (
      Primed-Grows (merged file environ) v.secrets (resolve_all w rs v).1.secrets
          (resolve_all-Grows w rs v) (prime_redaction-Primed (merged file environ) secrets),
      resolve_all-Registered w rs v,
    )
