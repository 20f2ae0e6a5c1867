-- ===== src/Users/Entry.antt =====
-- With which role a browser comes out of the callback.
use adam_abundance.Base.{
  ℕ, ◌≡◌, refl, Bool, true, false, not, ◌||◌, Option, some, List, [], inl, inr, Option-cases,
  if◌then◌else◌, ok, or_else,
}
use adam_abundance.Base.Text.{lower}
use adam_abundance.Users.Rbac.{Role}
use adam_abundance.Users.Repo.{Email, AppUser, Users, get, find_user, provision, new_user}
use adam_abundance.Users.Provision.{lower-lower, find_user-append, same_codes_refl}
use adam_abundance.Users.SignIn.{
  Link, up, down, uncommitted, provisioned, session_from, Site, UserInfo, SessionUser, Web,
  Response, redirect, refused, is_allowed, establish_session, admit, callback,
}

-- The row that is provisioned is the one that the email finds.
get-provision :
    (now : ℕ) (admins : List Email) (default : Option Role) (e : Email) (name : Option (List ℕ))
    (us : Users)
    → (row : AppUser) × ((provision now admins default e name us).0 ≡ ok row)
      × (get e (provision now admins default e name us).1 ≡ some row)
unfolding provision get
get-provision now admins default e name us = elim (Option-cases (find_user (lower (lower e)) us)) [
  | inl h ↦
      let row : AppUser = new_user now admins default (lower e) name us in
      rw h (
        row,
        refl,
        find_user-append (lower e) us row (rw (← lower-lower e) h) (same_codes_refl (lower e)),
      )
  | inr (row, h) ↦ rw h (row, refl, rw (← lower-lower e) h)
]

-- The browser is signed in under this identity. Where the transaction commits, it has the role and
-- the brands of the row that the email finds. Where it fails at the commit, it has those of the row
-- that was to be, and no row is written. Where it fails before, it is a viewer, and no row is
-- written.
pub record Entered (site : Site) (e : Email) (name : List ℕ) (hd : Option (List ℕ)) (dev : Bool)
    (s s' : Web) : Type 0 where
  pub user : SessionUser
  pub session : s'.user ≡ some user
  pub email : user.email ≡ e
  pub named : user.name ≡ name
  pub domain : user.hd ≡ hd
  pub by_form : user.dev ≡ dev
  pub with_row :
      site.db ≡ up
      → (row : AppUser) × (get e s'.users ≡ some row)
        × (user.role ≡ row.role)
        × (user.brands ≡ or_else row.brands [])
  pub without_commit :
      site.db ≡ uncommitted
      → (s'.users ≡ s.users)
        × ((row : AppUser) × ((provisioned site e name s.users).0 ≡ ok row)
            × (user.role ≡ row.role)
            × (user.brands ≡ or_else row.brands []))
  pub without :
      site.db ≡ down → (user.role ≡ Role.viewer) × (user.brands ≡ []) × (s'.users ≡ s.users)

establish-Entered :
    (site : Site) (e : Email) (name : List ℕ) (hd : Option (List ℕ)) (dev : Bool) (s : Web)
    → Entered site e name hd dev s (establish_session site e name hd dev s)
unfolding establish_session
establish-Entered site e name hd dev s = by_link site.db refl
  where
    by_link :
        (l : Link)
        → site.db ≡ l
        → Entered site e name hd dev s (session_from site l e name hd dev s)
    by_link up h =
        let (row, r, f) =
          get-provision site.now site.auth.admins site.auth.default_role e (some name) s.users in
        rw r (record {
          user = _;
          session = refl;
          email = refl;
          named = refl;
          domain = refl;
          by_form = refl;
          with_row = λ _. (row, f, refl, refl);
          without_commit = λ k. absurd (cc (h, k));
          without = λ k. absurd (cc (h, k));
        })
    by_link uncommitted h =
        let (row, r, f) =
          get-provision site.now site.auth.admins site.auth.default_role e (some name) s.users in
        rw r (record {
          user = _;
          session = refl;
          email = refl;
          named = refl;
          domain = refl;
          by_form = refl;
          with_row = λ k. absurd (cc (h, k));
          without_commit = λ _. (refl, (row, r, refl, refl));
          without = λ k. absurd (cc (h, k));
        })
    by_link down h = record {
      user = _;
      session = refl;
      email = refl;
      named = refl;
      domain = refl;
      by_form = refl;
      with_row = λ k. absurd (cc (h, k));
      without_commit = λ k. absurd (cc (h, k));
      without = λ _. (refl, refl, refl);
    }

-- The two refusals of the callback before it admits.
abbrev gates : Site → Bool → Bool → Email → List ℕ → Option (List ℕ) → Web → Response × Web
gates site closed refuse e name hd s =
    if closed
    then (refused 503, s)
    else if refuse
    then (refused 403, s)
    else admit site e name hd false s

module _ (site : Site) (e : Email) (name : List ℕ) (hd : Option (List ℕ)) (s : Web) where
  gates-Entered :
      (closed refuse : Bool)
      → (gates site closed refuse e name hd s).0 ≡ redirect "/"
      → Entered site e name hd false s (gates site closed refuse e name hd s).1
  gates-Entered true refuse h = absurd (cc)
  gates-Entered false true h = absurd (cc)
  gates-Entered false false h = establish-Entered site e name hd false s

  gates-refused :
      (closed refuse : Bool) (n : ℕ)
      → (gates site closed refuse e name hd s).0 ≡ refused n
      → (gates site closed refuse e name hd s).1 ≡ s
  gates-refused true refuse n h = refl
  gates-refused false true n h = refl
  gates-refused false false n h = cc

-- A callback that lets the browser in signs it in under the lower-cased email of Google's answer,
-- with its name and hosted domain: where the transaction commits, under the role and brands of the
-- row that the email then finds; where it fails at the commit, under those of the row that was to
-- be, with no row written; where it fails before, as a viewer, with no row written. A callback that
-- is refused changes neither the session nor the table.
pub callback_lem :
    (site : Site) (info : UserInfo) (s : Web)
    → let e = lower (or_else info.email []) in
      ((callback site info s).0 ≡ redirect "/"
        → Entered site e (or_else info.name e) info.hd false s (callback site info s).1)
      × ((n : ℕ) → (callback site info s).0 ≡ refused n → (callback site info s).1 ≡ s)
unfolding callback
callback_lem site info s =
    let e = lower (or_else info.email []) in
    let refuse = not (or_else info.email_verified true) || not (is_allowed site.auth e info.hd) in
    let name = or_else info.name e in
    (
      gates-Entered site e name info.hd s (not site.has_oauth) refuse,
      gates-refused site e name info.hd s (not site.has_oauth) refuse,
    )
