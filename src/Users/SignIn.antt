-- ===== src/Users/SignIn.antt =====
-- Signing in: the routes of api/auth.py with `AuthConfig.is_allowed` of config.py, over one browser's
-- session and the table of users. A text is its code points. What Google answers is the argument of
-- the callback; the exchange with it, and the texts of pages, are left out.
use adam_abundance.Base.{
  ℕ, String, Bool, true, false, not, ◌&&◌, ◌||◌, Option, none, some, List, [], ◌∷◌, any, ◌==◌,
  if◌then◌else◌, or_else, Result,
}
use adam_abundance.Base.Text.{same_codes, strip, lower}
use adam_abundance.Users.Rbac.{Role}
use adam_abundance.Users.Repo.{Email, AppUser, UserError, Users, provision}

pub record AuthConfig : Type 0 where
  pub allowed_domains : List (List ℕ)
  pub allowlist : List Email
  pub admins : List Email
  pub default_role : Option Role

-- How the transaction of a sign-in goes: it commits, it fails before the user is read, or it fails at
-- the commit.
pub data Link : Type 0 where
  up down uncommitted : Link

-- What a request meets: whether the server runs locally, whether Google's client is configured,
-- how the database answers, and the clock.
pub record Site : Type 0 where
  pub auth : AuthConfig
  pub is_local : Bool
  pub has_oauth : Bool
  pub db : Link
  pub now : ℕ

-- `userinfo` of the token.
pub record UserInfo : Type 0 where
  pub email : Option (List ℕ)
  pub email_verified : Option Bool
  pub name : Option (List ℕ)
  pub hd : Option (List ℕ)

pub record SessionUser : Type 0 where
  pub email : Email
  pub name : List ℕ
  pub hd : Option (List ℕ)
  pub dev : Bool
  pub role : Role
  pub brands : List String

pub record Web : Type 0 where
  pub user : Option SessionUser
  pub users : Users

pub data Response : Type 0 where
  redirect : String → Response
  page : Response
  refused : ℕ → Response

abbrev pub after_at : List ℕ → Option (List ℕ)
after_at [] = none
after_at (c ∷ cs) = let rest = after_at cs in if c == b'@' then some cs else rest

-- `email.split("@")[-1]`
abbrev pub last_part : List ℕ → List ℕ → List ℕ
last_part whole [] = whole
last_part whole (c ∷ cs) = last_part (if c == b'@' then cs else whole) cs

abbrev pub is_in : List (List ℕ) → List ℕ → Bool
is_in xs x = any (same_codes x) xs

abbrev pub is_given : {A : Type 0} → List A → Bool
is_given [] = false
is_given (x ∷ xs) = true

module _ (a : AuthConfig) where
  abbrev pub domain_allowed : Option (List ℕ) → Bool
  domain_allowed none = true
  domain_allowed (some d) = not (is_given a.allowed_domains) || is_in a.allowed_domains d

  abbrev pub listed : Email → Bool
  listed email = not (is_given a.allowlist) || any (λ x. same_codes email (lower x)) a.allowlist

  abbrev pub allowed_at : Email → Option (List ℕ) → Option (List ℕ) → Bool
  allowed_at email none hd = false
  allowed_at email (some d) hd = domain_allowed (some d) && domain_allowed hd && listed email

  unfoldable pub is_allowed : Email → Option (List ℕ) → Bool
  is_allowed email hd = let e = strip (lower email) in allowed_at e (after_at e) hd

-- `u.role, u.brands` of the row that is provisioned, where the database answers.
abbrev pub role_of : Result UserError AppUser → Role
role_of (Result.ok u) = u.role
role_of (Result.err e) = Role.viewer

abbrev pub brands_of : Result UserError AppUser → List String
brands_of (Result.ok u) = or_else u.brands []
brands_of (Result.err e) = []

abbrev pub signed_in :
    Email → List ℕ → Option (List ℕ) → Bool → Result UserError AppUser × Users → Web → Web
signed_in email name hd dev (r, us) s = record {
  user = some (record {
    email = email;
    name = name;
    hd = hd;
    dev = dev;
    role = role_of r;
    brands = brands_of r;
  });
  users = us;
}

abbrev pub as_viewer : Email → List ℕ → Option (List ℕ) → Bool → Web → Web
as_viewer email name hd dev s = record s {
  user =
      some (record {
        email = email;
        name = name;
        hd = hd;
        dev = dev;
        role = Role.viewer;
        brands = [];
      });
}

module _ (site : Site) where
  abbrev pub provisioned : Email → List ℕ → Users → Result UserError AppUser × Users
  provisioned email name us =
      provision site.now site.auth.admins site.auth.default_role email (some name) us

  -- The role and the brands are taken from the row before the commit: where that fails, they stay in
  -- the session, and the row is rolled back.
  abbrev pub session_from : Link → Email → List ℕ → Option (List ℕ) → Bool → Web → Web
  session_from up email name hd dev s =
      signed_in email name hd dev (provisioned email name s.users) s
  session_from uncommitted email name hd dev s =
      signed_in email name hd dev ((provisioned email name s.users).0, s.users) s
  session_from down email name hd dev s = as_viewer email name hd dev s

  unfoldable pub establish_session : Email → List ℕ → Option (List ℕ) → Bool → Web → Web
  establish_session email name hd dev s = session_from site.db email name hd dev s

  abbrev first_domain : List (List ℕ) → Option (List ℕ)
  first_domain [] = none
  first_domain (d ∷ ds) = some d

  unfoldable pub login : Web → Response × Web
  login s =
      if site.has_oauth
      then (redirect "https://accounts.google.com", s)
      else if site.is_local
      then (redirect "/auth/dev-login", s)
      else (refused 503, s)

  abbrev pub admit : Email → List ℕ → Option (List ℕ) → Bool → Web → Response × Web
  admit email name hd dev s = (redirect "/", establish_session email name hd dev s)

  unfoldable pub callback : UserInfo → Web → Response × Web
  unfolding establish_session
  callback info s =
      let email = lower (or_else info.email []) in
      if not site.has_oauth
      then (refused 503, s)
      else if not (or_else info.email_verified true) || not (is_allowed site.auth email info.hd)
      then (refused 403, s)
      else admit email (or_else info.name email) info.hd false s

  unfoldable pub dev_login_form : Web → Response × Web
  dev_login_form s =
      if not site.is_local
      then (refused 404, s)
      else if is_given site.auth.allowlist || is_given site.auth.allowed_domains
      then (page, s)
      else (refused 500, s)

  unfoldable pub dev_login : List ℕ → Web → Response × Web
  unfolding establish_session
  dev_login form_email s =
      let email = strip (lower form_email) in
      if not site.is_local
      then (refused 404, s)
      else if not (is_allowed site.auth email (first_domain site.auth.allowed_domains))
      then (refused 403, s)
      else admit email email (some (last_part email email)) true s

unfoldable pub logout : Web → Response × Web
logout s = (redirect "/", record s { user = none })

-- 401 where nobody is logged in.
unfoldable pub require_user : Web → Result ℕ SessionUser
require_user s = elim s.user [ none ↦ Result.err 401 | some u ↦ Result.ok u ]

pub data Request : Type 0 where
  to_login to_form to_logout : Request
  to_callback : UserInfo → Request
  to_dev_login : List ℕ → Request

unfoldable pub handle : Site → Request → Web → Response × Web
handle site to_login s = login site s
handle site to_form s = dev_login_form site s
handle site to_logout s = logout s
handle site (to_callback info) s = callback site info s
handle site (to_dev_login email) s = dev_login site email s

-- The requests of a browser, each at its own time and with the database in its own state.
unfoldable pub browse : List (Site × Request) → Web → Web
unfolding handle
browse [] s = s
browse ((site, q) ∷ qs) s = browse qs (handle site q s).1
