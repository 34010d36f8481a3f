-- ===== src/Rbac/Permissions.antt =====
-- The roles and permissions, their strings, and the table of `initializeRolePermissions`.
use ocpp_gw.Base.{
  ℕ, String, ◌≡◌, refl, Bool, true, List, [], ◌∷◌, ◌==◌, str_eq, if◌then◌else◌, any, arith, ◌≤◌,
}

pub data UserRole : Type 0 where
  admin operator viewer guest : UserRole

pub data Permission : Type 0 where
  system_read system_write system_restart : Permission
  device_read device_write device_add device_delete device_configure : Permission
  config_read config_write config_reload : Permission
  metrics_read logs_read security_read security_write user_manage : Permission
  ocpp_read ocpp_write ocpp_configure : Permission

unfoldable pub role_to_string : UserRole → String
role_to_string admin = "admin"
role_to_string operator = "operator"
role_to_string viewer = "viewer"
role_to_string guest = "guest"

unfoldable pub role_from_string : String → UserRole
role_from_string s =
    if str_eq s "admin"
    then admin
    else if str_eq s "operator"
    then operator
    else if str_eq s "viewer"
    then viewer
    else if str_eq s "guest"
    then guest
    else guest

unfoldable pub permission_to_string : Permission → String
permission_to_string system_read = "system_read"
permission_to_string system_write = "system_write"
permission_to_string system_restart = "system_restart"
permission_to_string device_read = "device_read"
permission_to_string device_write = "device_write"
permission_to_string device_add = "device_add"
permission_to_string device_delete = "device_delete"
permission_to_string device_configure = "device_configure"
permission_to_string config_read = "config_read"
permission_to_string config_write = "config_write"
permission_to_string config_reload = "config_reload"
permission_to_string metrics_read = "metrics_read"
permission_to_string logs_read = "logs_read"
permission_to_string security_read = "security_read"
permission_to_string security_write = "security_write"
permission_to_string user_manage = "user_manage"
permission_to_string ocpp_read = "ocpp_read"
permission_to_string ocpp_write = "ocpp_write"
permission_to_string ocpp_configure = "ocpp_configure"

unfoldable pub permission_from_string : String → Permission
permission_from_string s =
    if str_eq s "system_read"
    then system_read
    else if str_eq s "system_write"
    then system_write
    else if str_eq s "system_restart"
    then system_restart
    else if str_eq s "device_read"
    then device_read
    else if str_eq s "device_write"
    then device_write
    else if str_eq s "device_add"
    then device_add
    else if str_eq s "device_delete"
    then device_delete
    else if str_eq s "device_configure"
    then device_configure
    else if str_eq s "config_read"
    then config_read
    else if str_eq s "config_write"
    then config_write
    else if str_eq s "config_reload"
    then config_reload
    else if str_eq s "metrics_read"
    then metrics_read
    else if str_eq s "logs_read"
    then logs_read
    else if str_eq s "security_read"
    then security_read
    else if str_eq s "security_write"
    then security_write
    else if str_eq s "user_manage"
    then user_manage
    else if str_eq s "ocpp_read"
    then ocpp_read
    else if str_eq s "ocpp_write"
    then ocpp_write
    else if str_eq s "ocpp_configure"
    then ocpp_configure
    else system_read

-- `role_permissions_` as the constructor fills it; no operation changes it. A set is listed in the
-- order of its elements, which is that of the enumeration.
unfoldable pub get_permissions_for_role : UserRole → List Permission
get_permissions_for_role admin =
    system_read ∷ system_write ∷ system_restart ∷ device_read ∷ device_write ∷ device_add
    ∷ device_delete ∷ device_configure ∷ config_read ∷ config_write ∷ config_reload ∷ metrics_read
    ∷ logs_read ∷ security_read ∷ security_write ∷ user_manage ∷ ocpp_read ∷ ocpp_write
    ∷ ocpp_configure ∷ []
get_permissions_for_role operator =
    system_read ∷ device_read ∷ device_write ∷ device_configure ∷ config_read ∷ metrics_read
    ∷ logs_read ∷ ocpp_read ∷ ocpp_write ∷ []
get_permissions_for_role viewer =
    system_read ∷ device_read ∷ config_read ∷ metrics_read ∷ logs_read ∷ ocpp_read ∷ []
get_permissions_for_role guest = system_read ∷ device_read ∷ metrics_read ∷ []

-- The value of the enumerator.
abbrev pub code : Permission → ℕ
code system_read = 0
code system_write = 1
code system_restart = 2
code device_read = 3
code device_write = 4
code device_add = 5
code device_delete = 6
code device_configure = 7
code config_read = 8
code config_write = 9
code config_reload = 10
code metrics_read = 11
code logs_read = 12
code security_read = 13
code security_write = 14
code user_manage = 15
code ocpp_read = 16
code ocpp_write = 17
code ocpp_configure = 18

-- `find` in a set of permissions.
abbrev pub contains : List Permission → Permission → Bool
contains ps p = any (λ q. code q == code p) ps

-- How much a role is trusted.
abbrev pub rank : UserRole → ℕ
rank guest = 0
rank viewer = 1
rank operator = 2
rank admin = 3

-- The name of a role is read back as the same role.
pub role_from_string-role_to_string : (r : UserRole) → role_from_string (role_to_string r) ≡ r
unfolding role_from_string role_to_string
role_from_string-role_to_string admin = refl
role_from_string-role_to_string operator = refl
role_from_string-role_to_string viewer = refl
role_from_string-role_to_string guest = refl

-- The name of a permission is read back as the same permission.
pub permission_from_string-permission_to_string :
    (p : Permission) → permission_from_string (permission_to_string p) ≡ p
unfolding permission_from_string permission_to_string
permission_from_string-permission_to_string system_read = refl
permission_from_string-permission_to_string system_write = refl
permission_from_string-permission_to_string system_restart = refl
permission_from_string-permission_to_string device_read = refl
permission_from_string-permission_to_string device_write = refl
permission_from_string-permission_to_string device_add = refl
permission_from_string-permission_to_string device_delete = refl
permission_from_string-permission_to_string device_configure = refl
permission_from_string-permission_to_string config_read = refl
permission_from_string-permission_to_string config_write = refl
permission_from_string-permission_to_string config_reload = refl
permission_from_string-permission_to_string metrics_read = refl
permission_from_string-permission_to_string logs_read = refl
permission_from_string-permission_to_string security_read = refl
permission_from_string-permission_to_string security_write = refl
permission_from_string-permission_to_string user_manage = refl
permission_from_string-permission_to_string ocpp_read = refl
permission_from_string-permission_to_string ocpp_write = refl
permission_from_string-permission_to_string ocpp_configure = refl

admin_has : (p : Permission) → contains (get_permissions_for_role admin) p ≡ true
unfolding get_permissions_for_role
admin_has system_read = refl
admin_has system_write = refl
admin_has system_restart = refl
admin_has device_read = refl
admin_has device_write = refl
admin_has device_add = refl
admin_has device_delete = refl
admin_has device_configure = refl
admin_has config_read = refl
admin_has config_write = refl
admin_has config_reload = refl
admin_has metrics_read = refl
admin_has logs_read = refl
admin_has security_read = refl
admin_has security_write = refl
admin_has user_manage = refl
admin_has ocpp_read = refl
admin_has ocpp_write = refl
admin_has ocpp_configure = refl

-- The roles form a ladder (guest, viewer, operator, admin): what a role permits, every role that stands no
-- lower permits too.
pub get_permissions_for_role_mono :
    (r q : UserRole) (p : Permission)
    → rank r ≤ rank q
    → contains (get_permissions_for_role r) p ≡ true
    → contains (get_permissions_for_role q) p ≡ true
unfolding get_permissions_for_role
get_permissions_for_role_mono r admin p h k = admin_has p
get_permissions_for_role_mono r q p h k = ground arith
