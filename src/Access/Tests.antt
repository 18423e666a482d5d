-- ===== src/Access/Tests.antt =====
-- The rules at a small organisation.
use nodejs_movy_data.Prelude.{◌≡◌, ◌≤◌, refl, some, none, [], ◌∷◌, Dict, arith, lookup}
use nodejs_movy_data.Access.Roles.{
  OrgRole, viewer, editor, admin, run_cancel, OrgContext, has_permission, require_org_role,
  require_permission, would_orphan_org,
}
use nodejs_movy_data.Access.Laws.{require_org_role_permits, admins, change, change_keeps_admin}

abbrev editor_context : OrgContext
editor_context = record {
  org_id = "o1";
  org_slug = "acme";
  user_id = "ann";
  role = editor;
  max_concurrent_runs = 2;
}

require_org_role_permits_example :
    require_permission editor_context run_cancel ≡ some editor_context
unfolding require_org_role has_permission
require_org_role_permits_example =
    require_org_role_permits editor_context editor_context editor run_cancel refl refl

abbrev members : Dict OrgRole
members = ("ann", admin) ∷ ("bob", admin) ∷ ("cid", viewer) ∷ []

change_keeps_admin_example : 1 ≤ admins (change "ann" none members)
unfolding lookup would_orphan_org
change_keeps_admin_example =
    change_keeps_admin "ann" none admin members ((refl, (refl, tt)), ((refl, tt), (tt, tt))) refl
      refl (omega arith)
