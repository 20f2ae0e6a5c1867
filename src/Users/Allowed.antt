-- ===== src/Users/Allowed.antt =====
-- Who gets in: what holds of the session and of the table of users, however a browser goes on.
use mathlib.Core.Path.{subst}
use adam_abundance.Base.{
  ℕ, ◌≡◌, refl, sym, ◌∙◌, Bool, true, false, not, ◌&&◌, ◌||◌, Option, none, some, List, [], ◌∷◌,
  inl, inr, Bool-cases, Option-cases, if◌then◌else◌, All, All-append, or_else,
}
use adam_abundance.Base.Text.{lower, strip}
use adam_abundance.Users.Rbac.{Role}
use adam_abundance.Users.Repo.{Email, Users, find_user, provision}
use adam_abundance.Users.Provision.{lower-lower}
use adam_abundance.Users.SignIn.{
  AuthConfig, Link, up, down, uncommitted, session_from, Site, UserInfo, SessionUser, Web, Response,
  page, refused, after_at, domain_allowed, listed, allowed_at, is_allowed, establish_session, admit,
  login, callback, dev_login_form, dev_login, logout, Request, to_login, to_form, to_logout,
  to_callback, to_dev_login, handle, browse,
}

and-left : (a b c : Bool) → (a && b && c) ≡ true → (a && true && c) ≡ true
and-left true true c h = h
and-left true false c h = cc
and-left false b c h = cc

-- Without the hosted domain the test asks for less.
is_allowed-none :
    (a : AuthConfig) (e : Email) (hd : Option (List ℕ))
    → is_allowed a e hd ≡ true
    → is_allowed a e none ≡ true
unfolding is_allowed
is_allowed-none a e hd h = by_domain (strip (lower e)) (after_at (strip (lower e))) h
  where
    by_domain :
        (x : Email) (d : Option (List ℕ))
        → allowed_at a x d hd ≡ true
        → allowed_at a x d none ≡ true
    by_domain x none k = k
    by_domain x (some d) k =
        and-left (domain_allowed a (some d)) (domain_allowed a hd) (listed a x) k

is_allowed-lower :
    (a : AuthConfig) (e : Email) (hd : Option (List ℕ))
    → is_allowed a (lower e) hd ≡ is_allowed a e hd
unfolding is_allowed
is_allowed-lower a e hd = rw (lower-lower e) refl

module _ (a : AuthConfig) where
  abbrev pub Permitted : Email → Type 0
  Permitted e = is_allowed a e none ≡ true

  abbrev pub SessionPermitted : Option SessionUser → Type 0
  SessionPermitted none = Unit
  SessionPermitted (some u) = Permitted u.email

  -- Whoever is signed in and whoever has a row may sign in.
  pub record Guarded (s : Web) : Type 0 where
    pub session : SessionPermitted s.user
    pub rows : All (λ u. Permitted u.email) s.users

  provision-Permitted :
      (now : ℕ) (admins : List Email) (default : Option Role) (e : Email) (name : Option (List ℕ))
      (us : Users)
      → Permitted e
      → All (λ u. Permitted u.email) us
      → All (λ u. Permitted u.email) (provision now admins default e name us).1
  unfolding provision
  provision-Permitted now admins default e name us h k =
      elim (Option-cases (find_user (lower (lower e)) us)) [
        | inl f ↦
            rw f (All-append (λ u. Permitted u.email) us _ k (is_allowed-lower a e none ∙ h, tt))
        | inr (u, f) ↦ rw f k
      ]

module _ (site : Site) (s : Web) (g : Guarded site.auth s) where
  establish-Guarded :
      (e : Email) (name : List ℕ) (hd : Option (List ℕ)) (dev : Bool)
      → Permitted site.auth e
      → Guarded site.auth (establish_session site e name hd dev s)
  unfolding establish_session
  establish-Guarded e name hd dev h = by_link site.db
    where
      by_link : (l : Link) → Guarded site.auth (session_from site l e name hd dev s)
      by_link up = record {
        session = h;
        rows =
            provision-Permitted site.auth site.now site.auth.admins site.auth.default_role e
              (some name) s.users h g.rows;
      }
      by_link uncommitted = record { session = h; rows = g.rows }
      by_link down = record { session = h; rows = g.rows }

  login-Guarded : Guarded site.auth (login site s).1
  unfolding login
  login-Guarded = elim (Bool-cases site.has_oauth) [
    | inl o ↦ rw o g
    | inr o ↦ elim (Bool-cases site.is_local) [ inl l ↦ rw (o, l) g | inr l ↦ rw (o, l) g ]
  ]

  refused_or :
      (refuse : Bool) (n : ℕ) (e : Email) (name : List ℕ) (hd : Option (List ℕ)) (dev : Bool)
      → (refuse ≡ false → Permitted site.auth e)
      → Guarded site.auth (if refuse then (refused n, s) else admit site e name hd dev s).1
  refused_or true n e name hd dev h = g
  refused_or false n e name hd dev h = establish-Guarded e name hd dev (h refl)

  passed : (v b : Bool) → (not v || not b) ≡ false → b ≡ true
  passed true true h = refl
  passed true false h = cc
  passed false b h = cc

  callback-Guarded : (info : UserInfo) → Guarded site.auth (callback site info s).1
  unfolding callback
  callback-Guarded info =
      let e = lower (or_else info.email []) in
      elim (Bool-cases site.has_oauth) [
        | inl o ↦ rw o (
            refused_or _ 403 e (or_else info.name e) info.hd false (λ k.
              is_allowed-none site.auth e info.hd
                (passed (or_else info.email_verified true) (is_allowed site.auth e info.hd) k)))
        | inr o ↦ rw o g
      ]

  dev_login-Guarded : (form_email : List ℕ) → Guarded site.auth (dev_login site form_email s).1
  unfolding dev_login
  dev_login-Guarded form_email =
      let e = strip (lower form_email) in
      elim (Bool-cases site.is_local) [
        | inl l ↦
            rw l
              (refused_or _ 403 e e _ true (λ k. is_allowed-none site.auth e _ (passed true _ k)))
        | inr l ↦ rw l g
      ]

  handle-Guarded : (q : Request) → Guarded site.auth (handle site q s).1
  unfolding handle logout dev_login_form
  handle-Guarded to_login = login-Guarded
  handle-Guarded to_form = elim (Bool-cases site.is_local) [
    | inl l ↦ rw l (form_or _)
    | inr l ↦ rw l g
  ]
    where
      form_or :
          (b : Bool)
          → Guarded site.auth (if◌then◌else◌ {A = Response × Web} b (page, s) (refused 500, s)).1
      form_or true = g
      form_or false = g
  handle-Guarded to_logout = record { session = tt; rows = g.rows }
  handle-Guarded (to_callback info) = callback-Guarded info
  handle-Guarded (to_dev_login e) = dev_login-Guarded e

-- However a browser goes on, with Google's answers of any kind, the development form, and the
-- database up, down or failing at a commit: while the settings of the sign-in stay, whoever is signed in has an email
-- that the settings allow, and so has every user who was given a row, where that was so before.
pub browse-Guarded :
    (a : AuthConfig) (qs : List (Site × Request)) (s : Web)
    → All (λ q. q.0.auth ≡ a) qs
    → Guarded a s
    → Guarded a (browse qs s)
unfolding browse
browse-Guarded a [] s h g = g
browse-Guarded a ((site, q) ∷ qs) s h g = browse-Guarded a qs (handle site q s).1 h.1 (
    subst (λ x. Guarded x (handle site q s).1) h.0
      (handle-Guarded site s (subst (λ x. Guarded x s) (sym h.0) g) q))
