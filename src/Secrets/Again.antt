-- ===== src/Secrets/Again.antt =====
-- The cache of `Credentials._sm_get` (credentials.py) under a second request.
use adam_abundance.Base.{
  ◌+◌, ◌≡◌, ◌≢◌, refl, sym, ap, ◌∙◌, ◌⊎◌, Bool, true, false, Option, none, some, List, [], ◌∷◌, inl,
  inr, Result, ok, err,
}
use mathlib.Core.Path.{subst}
use adam_abundance.Users.Provision.{same_codes_refl}
use adam_abundance.Secrets.Vault.{
  Text, register_secret, Vault, SecretManager, CredentialError, missing_credential,
  client_unavailable, value_of, cached, ask_by, or_ask, sm_get, looked_up, settle, resolve,
}
use adam_abundance.Secrets.Registered.{register_secret-register_secret, looked_up-Kept}

-- What a lookup or a request may give.
abbrev Found : Type 0
Found = Result CredentialError (Option Text)

abbrev with_secrets : List Text → Vault → Vault
with_secrets secrets v = record v { secrets = secrets }

-- One more attempt to build the client, and nothing else.
abbrev pub attempted : Vault → Vault
attempted v = record v { attempts = v.attempts + 1 }

cached-first :
    (key : Text) (r : Option Text) (cache : List (Text × Option Text))
    → cached key ((key, r) ∷ cache) ≡ some r
cached-first key r cache = rw (same_codes_refl key) refl

module _ (w : SecretManager) where
  -- A second answer that comes to the same, and leaves the state alone.
  Same : Text → Found × Vault → Found → Vault → Type 0
  Same key second first u =
      (second.1 ≡ u)
      × ((required is_secret : Bool) (v : Vault)
          → settle w key required is_secret second.0 v ≡ settle w key required is_secret first v)

  -- After an answer of the Secret Manager: it is switched off and there was none, or it gives the
  -- same again.
  Again : Text → Text → Found → Vault → Type 0
  Again p key r u =
      ((u.sm_project ≡ none) × (r ≡ ok none))
      ⊎ ((u.sm_project ≡ some p) × (sm_get w p key u ≡ (r, u)))

  ask_by-Again :
      (client installed connects : Bool) (p key : Text) (v : Vault) (s : List Text)
      → v.sm_project ≡ some p
      → let r = ask_by w client installed connects p key v in
        r.0 ≢ err client_unavailable → Again p key r.0 (with_secrets s r.1)
  unfolding Again
  ask_by-Again true installed connects p key v s h bad =
      inr (h, rw (cached-first key (w.access v.requests p key) v.sm_cache) refl)
  ask_by-Again false false connects p key v s h bad = inl (refl, refl)
  ask_by-Again false true true p key v s h bad =
      inr (h, rw (cached-first key (w.access v.requests p key) v.sm_cache) refl)
  ask_by-Again false true false p key v s h bad = absurd (bad refl)

  or_ask-Again :
      (c : Option (Option Text)) (p key : Text) (v : Vault) (s : List Text)
      → v.sm_project ≡ some p
      → cached key v.sm_cache ≡ c
      → let r = or_ask w c p key v in
        r.0 ≢ err client_unavailable → Again p key r.0 (with_secrets s r.1)
  unfolding Again
  or_ask-Again (some x) p key v s h k bad = inr (h, rw k refl)
  or_ask-Again none p key v s h k bad =
      ask_by-Again v.has_client w.installed (w.connects v.attempts) p key v s h bad

  -- Where the environment holds nothing.
  blank-Same :
      (e : Option Text) (p key : Text) (r : Found) (u : Vault)
      → ((q : Text) → looked_up w e (some q) key u ≡ sm_get w q key u)
      → (looked_up w e none key u ≡ (ok e, u))
      → ((required is_secret : Bool) (v : Vault)
          → settle w key required is_secret (ok e) v ≡ settle w key required is_secret (ok none) v)
      → Again p key r u
      → Same key (looked_up w e u.sm_project key u) r u
  unfolding Again Same
  blank-Same e p key r u some_q off same (inl (o, n)) =
      subst (λ (q : Option Text). Same key (looked_up w e q key u) r u) (sym o)
        (subst (λ (x : Found × Vault). Same key x r u) (sym off)
          (subst (λ (x : Found). Same key (ok e, u) x u) (sym n) (refl, same)))
  blank-Same e p key r u some_q off same (inr (o, n)) =
      subst (λ (q : Option Text). Same key (looked_up w e q key u) r u) (sym o)
        (subst (λ (x : Found × Vault). Same key x r u) (sym (some_q p ∙ n))
          (refl, λ required is_secret v. refl))

  again :
      (e project : Option Text) (key : Text) (v : Vault) (s : List Text)
      → v.sm_project ≡ project
      → let r = looked_up w e project key v in
        let u = with_secrets s r.1 in
        r.0 ≢ err client_unavailable → Same key (looked_up w e u.sm_project key u) r.0 u
  unfolding Same
  again (some (c ∷ cs)) project key v s h bad = (refl, λ required is_secret v. refl)
  again none none key v s h bad =
      subst
        (λ (q : Option Text).
          Same key (looked_up w none q key (with_secrets s v)) (ok none) (with_secrets s v))
        (sym h) (refl, λ required is_secret v. refl)
  again (some []) none key v s h bad =
      subst
        (λ (q : Option Text).
          Same key (looked_up w (some []) q key (with_secrets s v)) (ok (some []))
            (with_secrets s v))
        (sym h) (refl, λ required is_secret v. refl)
  again none (some p) key v s h bad =
      let r = sm_get w p key v in
      blank-Same none p key r.0 (with_secrets s r.1) (λ q. refl) refl (λ required is_secret v. refl)
        (or_ask-Again (cached key v.sm_cache) p key v s h refl bad)
  again (some []) (some p) key v s h bad =
      let r = sm_get w p key v in
      blank-Same (some []) p key r.0 (with_secrets s r.1) (λ q. refl) refl
        (λ required is_secret v. refl) (or_ask-Again (cached key v.sm_cache) p key v s h refl bad)

  settled :
      (e : Option Text) (key : Text) (required is_secret : Bool) (val : Found) (v : Vault)
      → ((s : List Text)
          → let u = with_secrets s v in Same key (looked_up w e u.sm_project key u) val u)
      → let u = (settle w key required is_secret val v).1 in
        settle w key required is_secret
          (looked_up w e u.sm_project key u).0
          (looked_up w e u.sm_project key u).1
        ≡ settle w key required is_secret val v
  unfolding Same
  settled e key required true (ok (some (c ∷ cs))) v h =
      let s = register_secret (c ∷ cs) v.secrets in
      let r = looked_up w e v.sm_project key (with_secrets s v) in
      (h s).1 required true r.1
      ∙ ap (settle w key required true (ok (some (c ∷ cs)))) (h s).0
      ∙ ap (λ (x : List Text). (Result.ok (some (c ∷ cs)), with_secrets x v))
          (register_secret-register_secret (c ∷ cs) v.secrets)
  settled e key required false (ok (some (c ∷ cs))) v h =
      let r = looked_up w e v.sm_project key v in
      (h v.secrets).1 required false r.1
      ∙ ap (settle w key required false (ok (some (c ∷ cs)))) (h v.secrets).0
  settled e key required is_secret (err x) v h =
      let r = looked_up w e v.sm_project key v in
      (h v.secrets).1 required is_secret r.1
      ∙ ap (settle w key required is_secret (err x)) (h v.secrets).0
  settled e key required is_secret (ok none) v h =
      let r = looked_up w e v.sm_project key v in
      (h v.secrets).1 required is_secret r.1
      ∙ ap (settle w key required is_secret (ok none)) (h v.secrets).0
  settled e key required is_secret (ok (some [])) v h =
      let r = looked_up w e v.sm_project key v in
      (h v.secrets).1 required is_secret r.1
      ∙ ap (settle w key required is_secret (ok (some []))) (h v.secrets).0

  settle-values :
      (key : Text) (required is_secret : Bool) (val : Found) (v : Vault)
      → (settle w key required is_secret val v).1.values ≡ v.values
  settle-values key required true (ok (some (c ∷ cs))) v = refl
  settle-values key required false (ok (some (c ∷ cs))) v = refl
  settle-values key required is_secret (err e) v = refl
  settle-values key required is_secret (ok none) v = refl
  settle-values key required is_secret (ok (some [])) v = refl

  ask_by-attempted :
      (client installed connects : Bool) (p key : Text) (v : Vault)
      → (ask_by w client installed connects p key v).0 ≡ err client_unavailable
      → (ask_by w client installed connects p key v).1 ≡ attempted v
  ask_by-attempted true installed connects p key v h = absurd (cc h)
  ask_by-attempted false false connects p key v h = absurd (cc h)
  ask_by-attempted false true true p key v h = absurd (cc h)
  ask_by-attempted false true false p key v h = refl

  or_ask-attempted :
      (c : Option (Option Text)) (p key : Text) (v : Vault)
      → (or_ask w c p key v).0 ≡ err client_unavailable
      → (or_ask w c p key v).1 ≡ attempted v
  or_ask-attempted (some x) p key v h = absurd (cc h)
  or_ask-attempted none p key v h =
      ask_by-attempted v.has_client w.installed (w.connects v.attempts) p key v h

  looked_up-attempted :
      (e project : Option Text) (key : Text) (v : Vault)
      → (looked_up w e project key v).0 ≡ err client_unavailable
      → (looked_up w e project key v).1 ≡ attempted v
  looked_up-attempted (some (c ∷ cs)) project key v h = absurd (cc h)
  looked_up-attempted none none key v h = absurd (cc h)
  looked_up-attempted (some []) none key v h = absurd (cc h)
  looked_up-attempted none (some p) key v h = or_ask-attempted (cached key v.sm_cache) p key v h
  looked_up-attempted (some []) (some p) key v h =
      or_ask-attempted (cached key v.sm_cache) p key v h

  settle-failed :
      (key : Text) (required is_secret : Bool) (val : Found) (v : Vault)
      → (settle w key required is_secret val v).0 ≡ err client_unavailable
      → (val ≡ err client_unavailable) × ((settle w key required is_secret val v).1 ≡ v)
  settle-failed key required is_secret (err e) v h = (h, refl)
  settle-failed key required is_secret (ok (some (c ∷ cs))) v h = absurd (cc h)
  settle-failed key true is_secret (ok none) v h = absurd (cc h)
  settle-failed key false is_secret (ok none) v h = absurd (cc h)
  settle-failed key true is_secret (ok (some [])) v h = absurd (cc h)
  settle-failed key false is_secret (ok (some [])) v h = absurd (cc h)

  unavailable_or_not : (x : Found) → (x ≡ err client_unavailable) ⊎ (x ≢ err client_unavailable)
  unavailable_or_not (ok t) = inr (λ h. absurd (cc h))
  unavailable_or_not (err (missing_credential k)) = inr (λ h. absurd (cc h))
  unavailable_or_not (err client_unavailable) = inl refl

  resolve-unless_failed :
      (key : Text) (required is_secret : Bool) (v : Vault)
      → ((resolve w key required is_secret v).0 ≢ err client_unavailable
          → resolve w key required is_secret (resolve w key required is_secret v).1
            ≡ resolve w key required is_secret v)
        × ((resolve w key required is_secret v).0 ≡ err client_unavailable
            → (resolve w key required is_secret v).1 ≡ attempted v)
  unfolding resolve
  resolve-unless_failed key required is_secret v =
      let e = value_of key v.values in
      let r = looked_up w e v.sm_project key v in
      let u = (settle w key required is_secret r.0 r.1).1 in
      (
        (λ good.
            ap
              (λ e'.
                let x = looked_up w (value_of key e') u.sm_project key u in
                settle w key required is_secret x.0 x.1)
              (settle-values key required is_secret r.0 r.1
                ∙ (looked_up-Kept w e v.sm_project key v).1)
            ∙ settled e key required is_secret r.0 r.1 (λ s.
              again e v.sm_project key v s refl
                (λ bad. good (ap (λ x. (settle w key required is_secret x r.1).0) bad)))),
        (λ bad.
            let (f, same) = settle-failed key required is_secret r.0 r.1 bad in
            same ∙ looked_up-attempted e v.sm_project key v f),
      )

  -- A request fails because the client of the Secret Manager cannot be built, which only counts one
  -- more attempt, so that nothing is cached or registered; or asking again gives the same answer or
  -- the same error and changes nothing more, whatever the Secret Manager would answer to a second
  -- request.
  pub resolve-resolve :
      (key : Text) (required is_secret : Bool) (v : Vault)
      → (resolve w key required is_secret v ≡ (err client_unavailable, attempted v))
        ⊎ (resolve w key required is_secret (resolve w key required is_secret v).1
            ≡ resolve w key required is_secret v)
  resolve-resolve key required is_secret v =
      let parts = resolve-unless_failed key required is_secret v in
      elim (unavailable_or_not (resolve w key required is_secret v).0) [
        | inl h ↦ inl (λ i. (h i, parts.1 h i))
        | inr h ↦ inr (parts.0 h)
      ]
