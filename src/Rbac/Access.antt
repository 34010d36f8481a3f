-- ===== src/Rbac/Access.antt =====
-- Who gets in, with what permissions, and what becomes of tokens and passwords.
use ocpp_gw.Base.{
  String, ◌≡◌, ◌≢◌, ◌↔◌, refl, true, false, not, some, Option-cases, inl, inr, List, [], ◌∷◌,
  eq_iff, all, arith,
}
use ocpp_gw.Base.Dict.{lookup, erase, lookup-insert}
use ocpp_gw.Rbac.Permissions.{Permission, contains}
use ocpp_gw.Rbac.Manager.{
  UserInfo, Manager, create, initialize, authenticate, authenticate_token, has_permission,
  has_any_permission, has_all_permissions, add_user, update_user, delete_user, change_password,
  refused, revoke_token,
}

-- A user logs in exactly if there is an active user of that name whose stored hash is that of the password
-- given.
pub authenticate_iff :
    (hash : String → String) (username password token : String) (s : Manager)
    → ((authenticate hash username password token s).1.success ≡ true) ↔ (
        (user : UserInfo) × ((lookup username s.users ≡ some user)
          × ((user.is_active ≡ true) × (hash password ≡ user.password_hash))))
unfolding authenticate
authenticate_iff hash username password token s = elim (Option-cases (lookup username s.users)) [
  | inl q ↦ (λ h. absurd (ground arith), λ (user, (e, _)). absurd (ground arith))
  | inr (user, q) ↦ (
    λ h. (user, (q, ground (arith, eq_iff (hash password) user.password_hash))),
    λ (user', (e, (a, k))). ground (arith, eq_iff (hash password) user'.password_hash),
  )
]

-- The permissions that a successful login reports are those that the user has.
pub authenticate_permissions :
    (hash : String → String) (username password token : String) (s : Manager) (p : Permission)
    → let result = (authenticate hash username password token s).1 in
      result.success ≡ true → contains result.permissions p ≡ has_permission username p s
unfolding authenticate has_permission
authenticate_permissions hash username password token s p h =
    elim (Option-cases (lookup username s.users)) [
      | inl q ↦ absurd (ground arith)
      | inr (user, q) ↦ ground arith
    ]

-- A user has all of a list of permissions exactly if each is granted, and any of it exactly if not each
-- is refused.
pub has_all_permissions_lem :
    (username : String) (ps : List Permission) (s : Manager)
    → (has_all_permissions username ps s ≡ all (λ p. has_permission username p s) ps)
      × (has_any_permission username ps s ≡ not (all (λ p. not (has_permission username p s)) ps))
unfolding has_all_permissions has_any_permission
has_all_permissions_lem username [] s = (refl, refl)
has_all_permissions_lem username (p ∷ ps) s = ground (arith, has_all_permissions_lem username ps s)

-- A password change that succeeds changes no other user; with the new password an active user then logs
-- in, and with any password of another hash nobody does under that name.
pub change_password_lem :
    (hash : String → String) (username old new : String) (s : Manager)
    → (change_password hash username old new s).1 ≡ true
    → let s' = (change_password hash username old new s).0 in
      ((other : String) → other ≢ username → lookup other s'.users ≡ lookup other s.users)
      × (((token password : String)
            → hash password ≢ hash new
            → (authenticate hash username password token s').1.success ≡ false)
          × ((token : String) (user : UserInfo)
              → lookup username s.users ≡ some user
              → (authenticate hash username new token s').1.success ≡ user.is_active))
unfolding change_password authenticate
change_password_lem hash username old new s h = elim (Option-cases (lookup username s.users)) [
  | inl q ↦ absurd (ground arith)
  | inr (user, q) ↦
      let user' = record user { password_hash = hash new } in
      (
        λ other n.
            ground (arith, lookup-insert username other user' s.users, eq_iff username other),
        (
          λ token password n. ground (
            arith,
            lookup-insert username username user' s.users,
            eq_iff username username,
            eq_iff (hash password) (hash new),
          ),
          λ token owner e. ground (
            arith,
            lookup-insert username username user' s.users,
            eq_iff username username,
            eq_iff (hash new) (hash new),
          ),
        ),
      )
]

-- The operations that change the manager.
pub data Operation : Type 0 where
  initializes : (now : String) → Operation
  adds : UserInfo → Operation
  changes : String → UserInfo → Operation
  deletes : String → Operation
  changes_password : (username old new : String) → Operation
  logs_in : (username password token : String) → Operation
  revokes : (token : String) → Operation

unfoldable pub perform : (String → String) → Operation → Manager → Manager
perform hash (initializes now) s = initialize hash now s
perform hash (adds user) s = (add_user user s).0
perform hash (changes username user) s = (update_user username user s).0
perform hash (deletes username) s = (delete_user username s).0
perform hash (changes_password username old new) s = (change_password hash username old new s).0
perform hash (logs_in username password token) s = (authenticate hash username password token s).0
perform hash (revokes token) s = (revoke_token token s).0

unfoldable pub run : (String → String) → List Operation → Manager → Manager
unfolding perform
run hash [] s = s
run hash (o ∷ os) s = run hash os (perform hash o s)

perform_keeps_tokens :
    (hash : String → String) (o : Operation) (s : Manager)
    → s.tokens ≡ []
    → (perform hash o s).tokens ≡ []
unfolding perform initialize authenticate add_user update_user delete_user change_password
    revoke_token erase
perform_keeps_tokens hash (changes_password username old new) s h =
    elim (Option-cases (lookup username s.users)) [
      | inl q ↦ ground arith
      | inr (user, q) ↦ ground arith
    ]
perform_keeps_tokens hash o s h = ground arith

unknown_token :
    (token : String) (s : Manager)
    → s.tokens ≡ []
    → authenticate_token token s ≡ refused "Invalid token"
unfolding authenticate_token lookup
unknown_token token s h = ground arith

-- A login that succeeds answers with the token that was generated.
authenticate-token :
    (hash : String → String) (username password fresh : String) (s : Manager)
    → let result = (authenticate hash username password fresh s).1 in
      result.success ≡ true → result.token ≡ fresh
unfolding authenticate
authenticate-token hash username password fresh s h =
    elim (Option-cases (lookup username s.users)) [
      | inl q ↦ absurd (ground arith)
      | inr (user, q) ↦ ground arith
    ]

-- A token that a login has given is never known afterwards: when, after whatever was done since the manager
-- was created, a user logs in with success, the token of the answer is refused as "Invalid token" from then
-- on, whatever is done next; and so is every other token.
pub authenticate_token_refuses :
    (hash : String → String) (before after : List Operation)
    (username password fresh other : String)
    → (authenticate hash username password fresh (run hash before create)).1.success ≡ true
    → let login = authenticate hash username password fresh (run hash before create) in
      (login.1.token ≡ fresh)
      × ((authenticate_token login.1.token (run hash after login.0) ≡ refused "Invalid token")
          × (authenticate_token other (run hash after login.0) ≡ refused "Invalid token"))
unfolding create run perform
authenticate_token_refuses hash before after username password fresh other h =
    let s = run hash before create in
    let login = authenticate hash username password fresh s in
    let empty =
      go after login.0
        (perform_keeps_tokens hash (logs_in username password fresh) s (go before create refl)) in
    (
      authenticate-token hash username password fresh s h,
      (
        unknown_token login.1.token (run hash after login.0) empty,
        unknown_token other (run hash after login.0) empty,
      ),
    )
  where
    go : (os : List Operation) (s : Manager) → s.tokens ≡ [] → (run hash os s).tokens ≡ []
    go [] s h = h
    go (o ∷ os) s h = go os (perform hash o s) (perform_keeps_tokens hash o s h)
