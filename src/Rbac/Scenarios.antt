-- ===== src/Rbac/Scenarios.antt =====
-- The theorems on users at concrete inputs. The toy hash is the password itself.
use ocpp_gw.Base.{◌≡◌, refl, String, true, List, [], ◌∷◌}
use ocpp_gw.Rbac.Permissions.{operator}
use ocpp_gw.Rbac.Manager.{
  UserInfo, Manager, create, initialize, add_user, authenticate, authenticate_token, refused,
}
use ocpp_gw.Base.Dict.{lookup, insert}
use ocpp_gw.Rbac.Access.{
  Operation, initializes, adds, logs_in, changes_password, perform, run, authenticate_token_refuses,
}

abbrev plain : String → String
plain password = password

abbrev ann : UserInfo
ann = record {
  username = "ann";
  password_hash = "secret";
  role = operator;
  email = "";
  full_name = "Ann";
  is_active = true;
  created_at = "";
  last_login = "";
  groups = [];
}

abbrev staffed : Manager
staffed = record { users = ("ann", ann) ∷ []; tokens = [] }

abbrev opening : List Operation
opening = initializes "now" ∷ adds ann ∷ []

abbrev day : List Operation
day = logs_in "admin" "admin" "admin_0002" ∷ changes_password "ann" "secret" "new" ∷ []

-- Ann logs in; her token and another one are unknown after the administrator has logged in too.
authenticate_token_refuses_example :
    let login = authenticate plain "ann" "secret" "ann_0001" (run plain opening create) in
    (login.1.token ≡ "ann_0001")
    × ((authenticate_token login.1.token (run plain day login.0) ≡ refused "Invalid token")
        × (authenticate_token "admin_0002" (run plain day login.0) ≡ refused "Invalid token"))
unfolding authenticate run perform initialize add_user create lookup insert
authenticate_token_refuses_example =
    authenticate_token_refuses plain opening day "ann" "secret" "ann_0001" "admin_0002" refl
