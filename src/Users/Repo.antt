-- ===== src/Users/Repo.antt =====
-- `UserRepo` of users.py over the rows of `app_user`, whose key is the lower-case email, as code
-- points. `admins` and `default_role` are the settings of those names.
use adam_abundance.Base.{
  ℕ, String, Bool, ◌||◌, Option, none, some, List, [], ◌∷◌, ◌++◌, any, if◌then◌else◌, Result, Exec,
  or_else, length, ◌==◌,
}
use adam_abundance.Base.Text.{same_codes, lower}
use adam_abundance.Users.Rbac.{Role}

abbrev pub Email : Type 0
Email = List ℕ

pub record AppUser : Type 0 where
  pub email : Email
  pub name : Option (List ℕ)
  pub role : Role
  pub brands : Option (List String)
  pub created_at : ℕ
  pub updated_at : Option ℕ

pub data UserError : Type 0 where
  invalid_role : UserError
  unknown_user : Email → UserError

abbrev pub Users : Type 0
Users = List AppUser

-- `session.get(AppUser, email)`
abbrev pub find_user : Email → Users → Option AppUser
find_user e [] = none
find_user e (u ∷ us) = if same_codes u.email e then some u else find_user e us

abbrev pub put_user : Email → AppUser → Users → Users
put_user e u' [] = []
put_user e u' (u ∷ us) = if same_codes u.email e then u' ∷ us else u ∷ put_user e u' us

unfoldable pub get : Email → Users → Option AppUser
get email us = find_user (lower email) us

abbrev pub is_empty : Users → Bool
is_empty us = length us == 0

module _ (now : ℕ) where
  module _ (admins : List Email) (default_role : Option Role) where
    -- The role of a new user: a default that names no role reads as viewer.
    abbrev pub first_role : Email → Users → Role
    first_role email us =
        if is_empty us || any (λ a. same_codes email (lower a)) admins
        then Role.global_admin
        else or_else default_role Role.viewer

    abbrev pub new_user : Email → Option (List ℕ) → Users → AppUser
    new_user email name us = record {
      email = email;
      name = name;
      role = first_role email us;
      brands = none;
      created_at = now;
      updated_at = none;
    }

    abbrev pub provision_over :
        Email → Option (List ℕ) → Option AppUser → Exec Users UserError AppUser
    provision_over email name (some u) us = (Result.ok u, us)
    provision_over email name none us =
        (Result.ok (new_user email name us), us ++ new_user email name us ∷ [])

    unfoldable pub provision : Email → Option (List ℕ) → Exec Users UserError AppUser
    provision email name us =
        provision_over (lower email) name (find_user (lower (lower email)) us) us

  abbrev pub scope : Role → Option (List String) → Option (List String)
  scope Role.brand_user brands = brands
  scope _ brands = none

  abbrev pub with_role : Role → Option (List String) → AppUser → AppUser
  with_role role brands u = record u {
    role = role;
    brands = scope role brands;
    updated_at = some now;
  }

  abbrev pub set_role_of :
      Email → Role → Option (List String) → Option AppUser → Exec Users UserError AppUser
  set_role_of email role brands none us = (Result.err (unknown_user email), us)
  set_role_of email role brands (some u) us =
      (Result.ok (with_role role brands u), put_user u.email (with_role role brands u) us)

  unfoldable pub set_role :
      Email → Option Role → Option (List String) → Exec Users UserError AppUser
  unfolding get
  set_role email none brands us = (Result.err invalid_role, us)
  set_role email (some role) brands us = set_role_of email role brands (get email us) us
