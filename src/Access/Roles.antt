-- ===== src/Access/Roles.antt =====
-- Roles, permissions and the guards of request handlers. A guard's `none` is the 403 that it throws.
use nodejs_movy_data.Prelude.{
  ℕ, Bool, true, false, not, String, Option, none, some, List, [], ◌∷◌, ◌++◌, Dict, lookup, any,
  str_eq, ltb, leb, if◌then◌else◌,
}

pub data OrgRole : Type 0 where
  viewer editor admin : OrgRole

pub data Permission : Type 0 where
  run_read run_execute run_cancel run_log_read definition_read definition_write connection_read
        connection_write connection_test validation_read validation_execute stats_read member_read
        member_manage org_manage :
      Permission

abbrev pub permission_name : Permission → String
permission_name run_read = "run:read"
permission_name run_execute = "run:execute"
permission_name run_cancel = "run:cancel"
permission_name run_log_read = "run:log:read"
permission_name definition_read = "definition:read"
permission_name definition_write = "definition:write"
permission_name connection_read = "connection:read"
permission_name connection_write = "connection:write"
permission_name connection_test = "connection:test"
permission_name validation_read = "validation:read"
permission_name validation_execute = "validation:execute"
permission_name stats_read = "stats:read"
permission_name member_read = "member:read"
permission_name member_manage = "member:manage"
permission_name org_manage = "org:manage"

abbrev pub viewer_permissions : List Permission
viewer_permissions = run_read ∷ definition_read ∷ validation_read ∷ stats_read ∷ []

abbrev pub editor_permissions : List Permission
editor_permissions =
    viewer_permissions
    ++ (member_read ∷ connection_read ∷ connection_write ∷ connection_test ∷ definition_write
        ∷ run_execute ∷ run_cancel ∷ run_log_read ∷ validation_execute ∷ [])

abbrev pub admin_permissions : List Permission
admin_permissions = editor_permissions ++ (org_manage ∷ member_manage ∷ [])

abbrev pub role_permissions : OrgRole → List Permission
role_permissions viewer = viewer_permissions
role_permissions editor = editor_permissions
role_permissions admin = admin_permissions

abbrev pub rank : OrgRole → ℕ
rank viewer = 1
rank editor = 2
rank admin = 3

abbrev pub org_roles : Dict OrgRole
org_roles = ("admin", admin) ∷ ("editor", editor) ∷ ("viewer", viewer) ∷ []

-- `none` is the 400 that `parseRole` throws.
unfoldable pub parse_role : String → Option OrgRole
parse_role value = lookup value org_roles

unfoldable pub has_permission : OrgRole → Permission → Bool
has_permission role p =
    any (λ q. str_eq (permission_name q) (permission_name p)) (role_permissions role)

pub record OrgContext : Type 0 where
  pub org_id : String
  pub org_slug : String
  pub user_id : String
  pub role : OrgRole
  pub max_concurrent_runs : ℕ

unfoldable pub require_org_role : OrgContext → OrgRole → Option OrgContext
require_org_role org least = if ltb (rank org.role) (rank least) then none else some org

unfoldable pub require_permission : OrgContext → Permission → Option OrgContext
require_permission org p = if not (has_permission org.role p) then none else some org

abbrev pub is_admin : OrgRole → Bool
is_admin admin = true
is_admin _ = false

abbrev stays_admin : Option OrgRole → Bool
stays_admin none = false
stays_admin (some r) = is_admin r

unfoldable pub would_orphan_org : OrgRole → Option OrgRole → ℕ → Bool
would_orphan_org current next admin_count =
    if not (is_admin current) then false else if stays_admin next then false else leb admin_count 1
