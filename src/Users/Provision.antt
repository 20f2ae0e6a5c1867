-- ===== src/Users/Provision.antt =====
-- Logging in twice, and what a user may do after a change of role.
use mathlib.Core.Path.{subst}
use adam_abundance.Base.{
  ℕ, ◌≡◌, refl, String, Bool, true, false, ◌&&◌, Option, none, some, List, [], ◌∷◌, ◌++◌, inl, inr,
  sym, arith, Bool-cases, Option-cases, Result, ◌==◌,
}
use adam_abundance.Base.Text.{same_codes, lower, lower_code}
use adam_abundance.Users.Rbac.{Role, can_approve}
use adam_abundance.Users.Repo.{
  Email, AppUser, Users, find_user, put_user, provision, new_user, set_role, with_role, scope, get,
}

pub same_codes_refl : (e : Email) → same_codes e e ≡ true
same_codes_refl [] = refl
same_codes_refl (c ∷ cs) = ground (arith, same_codes_refl cs)

pub eq_of_same_codes : (a b : Email) → same_codes a b ≡ true → a ≡ b
eq_of_same_codes [] [] h = refl
eq_of_same_codes [] (y ∷ ys) h = cc
eq_of_same_codes (x ∷ xs) [] h = cc
eq_of_same_codes (x ∷ xs) (y ∷ ys) h = elim (Bool-cases (x == y)) [
  | inl b ↦ joined x y xs ys (ground arith) (eq_of_same_codes xs ys (rw b at h))
  | inr b ↦ absurd (no_head (same_codes xs ys) (rw b at h))
]
  where
    joined : (x y : ℕ) (xs ys : Email) → x ≡ y → xs ≡ ys → x ∷ xs ≡ y ∷ ys
    joined x y xs ys p q = cc

    no_head : (c : Bool) → (false && c) ≡ true → ⊥
    no_head c q = cc

lower_code-lower_code : (c : ℕ) → lower_code (lower_code c) ≡ lower_code c
lower_code-lower_code c = ground arith

pub lower-lower : (e : Email) → lower (lower e) ≡ lower e
lower-lower [] = refl
lower-lower (c ∷ cs) = ap2 (lower_code-lower_code c) (lower-lower cs)
  where
    ap2 : {x y : ℕ} {xs ys : Email} → x ≡ y → xs ≡ ys → x ∷ xs ≡ y ∷ ys
    ap2 p q = cc

pub find_user-append :
    (e : Email) (us : Users) (u : AppUser)
    → find_user e us ≡ none
    → same_codes u.email e ≡ true
    → find_user e (us ++ u ∷ []) ≡ some u
find_user-append e [] u h k = rw k refl
find_user-append e (x ∷ us) u h k = elim (Bool-cases (same_codes x.email e)) [
  | inl b ↦ absurd (no_user x (rw b at h))
  | inr b ↦ rw b (find_user-append e us u (rw b at h) k)
]
  where
    no_user : (x : AppUser) → some x ≡ none → ⊥
    no_user x q = cc

find_user-put_user :
    (e : Email) (us : Users) (u u' : AppUser)
    → find_user e us ≡ some u
    → same_codes u'.email e ≡ true
    → find_user e (put_user e u' us) ≡ some u'
find_user-put_user e [] u u' h k = cc
find_user-put_user e (x ∷ us) u u' h k = elim (Bool-cases (same_codes x.email e)) [
  | inl b ↦ rw (b, k) refl
  | inr b ↦ rw (b, b) (find_user-put_user e us u u' (rw b at h) k)
]

pub email-find_user :
    (e : Email) (us : Users) (u : AppUser) → find_user e us ≡ some u → same_codes u.email e ≡ true
email-find_user e [] u h = cc
email-find_user e (x ∷ us) u h = elim (Bool-cases (same_codes x.email e)) [
  | inl b ↦ rw (← same x u (rw b at h)) b
  | inr b ↦ email-find_user e us u (rw b at h)
]
  where
    same : (x u : AppUser) → some x ≡ some u → x ≡ u
    same x u q = cc

-- Logging in twice under one email, in any case and under any settings, gives the same user: the
-- second time adds nothing and changes nothing.
provision-provision :
    (now later : ℕ) (admins admins' : List Email) (default default' : Option Role)
    (email email' : Email) (name name' : Option (List ℕ)) (us : Users)
    → lower email' ≡ lower email
    → (u : AppUser) × ((provision now admins default email name us).0 ≡ Result.ok u)
      × (provision later admins' default' email' name'
            (provision now admins default email name us).1
          ≡ (Result.ok u, (provision now admins default email name us).1))
unfolding provision
provision-provision now later admins admins' default default' email email' name name' us e =
    elim (Option-cases (find_user (lower (lower email)) us)) [
      | inl h ↦
          let u : AppUser = new_user now admins default (lower email) name us in
          rw h (u, refl, rw (e, find_user-append (lower (lower email)) us u h (own email)) refl)
      | inr (u, h) ↦ rw h (u, refl, rw (e, h) refl)
    ]
  where
    own : (x : Email) → same_codes (lower x) (lower (lower x)) ≡ true
    own x = rw (lower-lower x) (same_codes_refl (lower x))

-- After a change of role the user that the email finds may approve what the new role and the given
-- brands allow, whatever the user was before.
pub set_role-can_approve :
    (now : ℕ) (email : Email) (role : Role) (brands : Option (List String)) (u : AppUser)
    (us : Users)
    → get email us ≡ some u
    → (v : AppUser) × ((set_role now email (some role) brands us).0 ≡ Result.ok v)
      × (get email (set_role now email (some role) brands us).1 ≡ some v)
      × ((target : String) → can_approve v.role v.brands target ≡ can_approve role brands target)
unfolding get set_role can_approve
set_role-can_approve now email role brands u us h =
    let same = email-find_user (lower email) us u h in
    rw h (
      with_role now role brands u,
      refl,
      subst
          (λ k.
            find_user (lower email) (put_user k (with_role now role brands u) us)
            ≡ some (with_role now role brands u))
          (sym (eq_of_same_codes u.email (lower email) same))
          (find_user-put_user (lower email) us u (with_role now role brands u) h same),
      scoped role,
    )
  where
    scoped :
        (r : Role)
        → (target : String)
        → can_approve r (scope now r brands) target ≡ can_approve r brands target
    scoped Role.global_admin t = refl
    scoped Role.portfolio_admin t = refl
    scoped Role.brand_user t = refl
    scoped Role.viewer t = refl
