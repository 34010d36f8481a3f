-- ===== src/Rbac/Manager.antt =====
-- The state of `RbacManager` and its operations. Each takes what it reads from outside: `hash` is
-- `std::hash` printed, `token` what `generateToken` gives (from a random device), `now` a time stamp.
use ocpp_gw.Base.{
  String, Bool, true, false, not, Option, none, some, List, [], ◌∷◌, is_empty, is_some, str_eq,
  if◌then◌else◌,
}
use ocpp_gw.Base.Dict.{Dict, lookup, insert, erase, values}
use ocpp_gw.Rbac.Permissions.{
  UserRole, admin, guest, Permission, get_permissions_for_role, contains,
}

pub record UserInfo : Type 0 where
  pub username : String
  pub password_hash : String
  pub role : UserRole
  pub email : String
  pub full_name : String
  pub is_active : Bool
  pub created_at : String
  pub last_login : String
  pub groups : List String

pub record AuthResult : Type 0 where
  pub success : Bool
  pub username : String
  pub role : UserRole
  pub token : String
  pub error_message : String
  pub permissions : List Permission

pub record Manager : Type 0 where
  pub users : Dict UserInfo
  pub tokens : Dict String

-- The constructor.
unfoldable pub create : Manager
create = record { users = []; tokens = [] }

unfoldable pub initialize : (String → String) → String → Manager → Manager
initialize hash now s =
    if is_empty s.users
    then record s {
      users =
          insert "admin"
            (record {
              username = "admin";
              password_hash = hash "admin";
              role = admin;
              email = "admin@ocpp-gateway.local";
              full_name = "System Administrator";
              is_active = true;
              created_at = now;
              last_login = "";
              groups = [];
            })
            s.users;
    }
    else s

abbrev pub refused : String → AuthResult
refused message = record {
  success = false;
  username = "";
  role = guest;
  token = "";
  error_message = message;
  permissions = [];
}

abbrev pub granted : String → UserRole → String → AuthResult
granted username role token = record {
  success = true;
  username = username;
  role = role;
  token = token;
  error_message = "";
  permissions = get_permissions_for_role role;
}

abbrev pub verify_password : (String → String) → String → String → Bool
verify_password hash password hashed = str_eq (hash password) hashed

abbrev check_user : (String → String) → String → String → String → Option UserInfo → AuthResult
check_user hash username password token none = refused "User not found"
check_user hash username password token (some user) =
    if not user.is_active
    then refused "User account is disabled"
    else if not (verify_password hash password user.password_hash)
    then refused "Invalid password"
    else granted username user.role token

-- The method is `const`: the token is generated and put in the result, and nothing else is done with it.
unfoldable pub authenticate :
    (String → String) → String → String → String → Manager → Manager × AuthResult
authenticate hash username password token s =
    (s, check_user hash username password token (lookup username s.users))

abbrev check_owner : String → String → Option UserInfo → AuthResult
check_owner token username none = refused "User not found"
check_owner token username (some user) =
    if not user.is_active
    then refused "User account is disabled"
    else granted username user.role token

unfoldable pub authenticate_token : String → Manager → AuthResult
authenticate_token token s = elim (lookup token s.tokens) [
  | none ↦ refused "Invalid token"
  | some username ↦ check_owner token username (lookup username s.users)
]

abbrev permits : Permission → Option UserInfo → Bool
permits p none = false
permits p (some user) =
    if not user.is_active then false else contains (get_permissions_for_role user.role) p

unfoldable pub has_permission : String → Permission → Manager → Bool
has_permission username p s = permits p (lookup username s.users)

unfoldable pub has_any_permission : String → List Permission → Manager → Bool
has_any_permission username [] s = false
has_any_permission username (p ∷ ps) s =
    let later = has_any_permission username ps s in
    if has_permission username p s then true else later

unfoldable pub has_all_permissions : String → List Permission → Manager → Bool
has_all_permissions username [] s = true
has_all_permissions username (p ∷ ps) s =
    let later = has_all_permissions username ps s in
    if not (has_permission username p s) then false else later

unfoldable pub get_user_info : String → Manager → Option UserInfo
get_user_info username s = lookup username s.users

unfoldable pub get_all_users : Manager → List UserInfo
get_all_users s = values s.users

unfoldable pub add_user : UserInfo → Manager → Manager × Bool
add_user user s =
    if is_some (lookup user.username s.users)
    then (s, false)
    else (record s { users = insert user.username user s.users }, true)

unfoldable pub update_user : String → UserInfo → Manager → Manager × Bool
update_user username user s =
    if is_some (lookup username s.users)
    then (record s { users = insert username user s.users }, true)
    else (s, false)

unfoldable pub delete_user : String → Manager → Manager × Bool
delete_user username s =
    if is_some (lookup username s.users)
    then (record s { users = erase username s.users }, true)
    else (s, false)

abbrev change_of :
    (String → String) → String → String → String → Option UserInfo → Manager → Manager × Bool
change_of hash username old new none s = (s, false)
change_of hash username old new (some user) s =
    if not (verify_password hash old user.password_hash) then (s, false) else (
      record s { users = insert username (record user { password_hash = hash new }) s.users },
      true,
    )

unfoldable pub change_password :
    (String → String) → String → String → String → Manager → Manager × Bool
change_password hash username old new s =
    change_of hash username old new (lookup username s.users) s

unfoldable pub validate_token : String → Manager → Bool
validate_token token s = is_some (lookup token s.tokens)

unfoldable pub revoke_token : String → Manager → Manager × Bool
revoke_token token s =
    if is_some (lookup token s.tokens)
    then (record s { tokens = erase token s.tokens }, true)
    else (s, false)
