-- ===== src/Users/Tests.antt =====
-- A concrete table of users, and the theorems at it.
use adam_abundance.Base.{
  ℕ, true, false, ◌≡◌, refl, String, Option, none, some, List, [], ◌∷◌, Result,
}
use adam_abundance.Base.Text.{codes}
use adam_abundance.Users.Rbac.{Role, can_approve}
use adam_abundance.Users.Repo.{AppUser, provision, get, set_role}
use adam_abundance.Users.SignIn.{
  is_allowed, AuthConfig, up, Site, UserInfo, Web, to_callback, to_logout, redirect, refused,
  browse, callback,
}
use adam_abundance.Users.Allowed.{Guarded, browse-Guarded}
use adam_abundance.Users.Entry.{Entered, callback_lem}
use adam_abundance.Users.Provision.{set_role-can_approve}

abbrev dana : AppUser
dana = record {
  email = codes "dana@x.org";
  name = none;
  role = Role.viewer;
  brands = none;
  created_at = 1;
  updated_at = none;
}

-- The first user becomes a global admin, whatever the default.
first_is_admin :
    (provision 1 [] (some Role.viewer) (codes "Dana@x.org") none []).0
    ≡ Result.ok (record dana { role = Role.global_admin })
unfolding provision
first_is_admin = refl

abbrev hot : Option (List String)
hot = some ("hotcars" ∷ [])

set_role-can_approve_example :
    (v : AppUser) × ((set_role 9 (codes "DANA@x.org") (some Role.brand_user) hot (dana ∷ [])).0
      ≡ Result.ok v)
    × (get
          (codes "DANA@x.org")
          (set_role 9 (codes "DANA@x.org") (some Role.brand_user) hot (dana ∷ [])).1
        ≡ some v)
    × ((target : String)
        → can_approve v.role v.brands target ≡ can_approve Role.brand_user hot target)
unfolding get
set_role-can_approve_example =
    set_role-can_approve 9 (codes "DANA@x.org") Role.brand_user hot dana (dana ∷ []) refl

abbrev auth : AuthConfig
auth = record {
  allowed_domains = codes "x.org" ∷ [];
  allowlist = [];
  admins = [];
  default_role = some Role.portfolio_admin;
}

abbrev site : Site
site = record { auth = auth; is_local = false; has_oauth = true; db = up; now = 5 }

abbrev google : UserInfo
google = record {
  email = some (codes "Eve@x.org");
  email_verified = none;
  name = none;
  hd = some (codes "x.org");
}

abbrev nobody : Web
nobody = record { user = none; users = dana ∷ [] }

browse-Guarded_example :
    Guarded auth (browse ((site, to_callback google) ∷ (site, to_logout) ∷ []) nobody)
unfolding is_allowed
browse-Guarded_example =
    browse-Guarded auth ((site, to_callback google) ∷ (site, to_logout) ∷ []) nobody
      (refl, (refl, tt)) (record { session = tt; rows = (refl, tt) })

callback_lem_example :
    ((callback site google nobody).0 ≡ redirect "/"
      → Entered site
          (codes "eve@x.org")
          (codes "eve@x.org")
          (some (codes "x.org"))
          false
          nobody
          (callback site google nobody).1)
    × ((n : ℕ)
        → (callback site google nobody).0 ≡ refused n
        → (callback site google nobody).1 ≡ nobody)
callback_lem_example = callback_lem site google nobody

-- That browser gets in.
eve_enters : (callback site google nobody).0 ≡ redirect "/"
unfolding callback is_allowed
eve_enters = refl
