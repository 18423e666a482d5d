-- ===== src/Access/Laws.antt =====
-- Roles are ordered by what they permit, and no guarded change leaves an organisation without an admin.
use mathlib.Core.Option.{some-injective}
use nodejs_movy_data.Prelude.{
  ℕ, ◌+◌, ◌≤◌, ◌≡◌, refl, subst, inl, inr, Bool, true, false, String, Option, none, some, List, [],
  ◌∷◌, ◌++◌, arith, eq_iff, All, drop, Dict, lookup, insert, delete, IsMap, any, str_eq, leb, ltb,
  if◌then◌else◌, Bool-cases,
}
use nodejs_movy_data.Access.Roles.{
  OrgRole, viewer, editor, admin, Permission, permission_name, viewer_permissions,
  editor_permissions, admin_permissions, rank, has_permission, OrgContext, require_org_role,
  require_permission, is_admin, would_orphan_org,
}

any-append_left :
    {A : Type 0} (p : A → Bool) (xs ys : List A) → any p xs ≡ true → any p (xs ++ ys) ≡ true
any-append_left p [] ys h = cc
any-append_left p (x ∷ xs) ys h = elim (Bool-cases (p x)) [
  | inl t ↦ rw t refl
  | inr f ↦ rw f (any-append_left p xs ys (rw f at h))
]

editor_of_viewer :
    (p : Permission) → has_permission viewer p ≡ true → has_permission editor p ≡ true
unfolding has_permission
editor_of_viewer p h =
    any-append_left (λ q. str_eq (permission_name q) (permission_name p)) viewer_permissions
      (drop 4 editor_permissions) h

admin_of_editor : (p : Permission) → has_permission editor p ≡ true → has_permission admin p ≡ true
unfolding has_permission
admin_of_editor p h =
    any-append_left (λ q. str_eq (permission_name q) (permission_name p)) editor_permissions
      (drop 13 admin_permissions) h

permitted_above :
    (r s : OrgRole) (p : Permission)
    → ltb (rank s) (rank r) ≡ false
    → has_permission r p ≡ true
    → has_permission s p ≡ true
permitted_above viewer viewer p h q = q
permitted_above viewer editor p h q = editor_of_viewer p q
permitted_above viewer admin p h q = admin_of_editor p (editor_of_viewer p q)
permitted_above editor editor p h q = q
permitted_above editor admin p h q = admin_of_editor p q
permitted_above admin admin p h q = q
permitted_above editor viewer p h q = cc
permitted_above admin viewer p h q = cc
permitted_above admin editor p h q = cc

-- A handler that asks for a role lets through only those who hold every permission of that role, so the
-- two kinds of guard agree on who is stronger.
pub require_org_role_permits :
    (org org' : OrgContext) (least : OrgRole) (p : Permission)
    → require_org_role org least ≡ some org'
    → has_permission least p ≡ true
    → require_permission org p ≡ some org
unfolding require_org_role require_permission
require_org_role_permits org org' least p h q =
    elim (Bool-cases (ltb (rank org.role) (rank least))) [
      | inl t ↦ cc (rw t at h)
      | inr f ↦ rw (permitted_above least org.role p f q) refl
    ]

-- The members of an organisation, and a change of one.
abbrev pub admins : Dict OrgRole → ℕ
admins [] = 0
admins ((k, r) ∷ m) = (if is_admin r then 1 else 0) + admins m

abbrev pub change : String → Option OrgRole → Dict OrgRole → Dict OrgRole
change user none m = delete user m
change user (some r) m = insert user r m

weight : OrgRole → ℕ
weight r = if is_admin r then 1 else 0

delete-absent : (k : String) (m : Dict OrgRole) → All (λ e. str_eq k e.0 ≡ false) m → delete k m ≡ m
unfolding delete
delete-absent k [] h = refl
delete-absent k ((j, r) ∷ m) (p, h) = rw (flip, delete-absent k m h) refl
  where
    flip : str_eq j k ≡ false
    flip = ground (arith, eq_iff k j, eq_iff j k, p)

admins-insert :
    (k : String) (r s : OrgRole) (m : Dict OrgRole)
    → lookup k m ≡ some r
    → admins (insert k s m) + weight r ≡ admins m + weight s
unfolding lookup insert weight
admins-insert k r s [] h = cc
admins-insert k r s ((j, q) ∷ m) h = elim (Bool-cases (str_eq j k)) [
  | inl t ↦ rw (t, some-injective q r (rw t at h)) (omega arith)
  | inr f ↦ rw f (omega (arith, admins-insert k r s m (rw f at h)))
]

admins-delete :
    (k : String) (r : OrgRole) (m : Dict OrgRole)
    → IsMap m
    → lookup k m ≡ some r
    → admins (delete k m) + weight r ≡ admins m
unfolding lookup delete weight
admins-delete k r [] u h = cc
admins-delete k r ((j, q) ∷ m) (p, u) h = elim (Bool-cases (str_eq j k)) [
  | inl t ↦
      let gone : delete k m ≡ m =
        delete-absent k m (subst (λ i. All (λ e. str_eq i e.0 ≡ false) m) ((eq_iff j k).0 t) p) in
      rw (t, gone, some-injective q r (rw t at h)) (omega arith)
  | inr f ↦ rw f (omega (arith, admins-delete k r m u (rw f at h)))
]

several : (n : ℕ) → leb n 1 ≡ false → 2 ≤ n
several n h = ground arith

-- A change of one member that `wouldOrphanOrg` lets pass, asked with the number of admins before it, leaves
-- at least one admin where there was one.
pub change_keeps_admin :
    (user : String) (next : Option OrgRole) (r : OrgRole) (m : Dict OrgRole)
    → IsMap m
    → lookup user m ≡ some r
    → would_orphan_org r next (admins m) ≡ false
    → 1 ≤ admins m
    → 1 ≤ admins (change user next m)
unfolding would_orphan_org weight
change_keeps_admin user none admin m u e h n =
    omega (arith, admins-delete user admin m u e, several (admins m) h)
change_keeps_admin user none editor m u e h n = omega (arith, admins-delete user editor m u e)
change_keeps_admin user none viewer m u e h n = omega (arith, admins-delete user viewer m u e)
change_keeps_admin user (some admin) r m u e h n =
    omega (arith, admins-insert user r admin m e, at_most_one r)
  where
    at_most_one : (x : OrgRole) → (if is_admin x then 1 else 0) ≤ 1
    at_most_one viewer = omega arith
    at_most_one editor = omega arith
    at_most_one admin = omega arith
change_keeps_admin user (some editor) admin m u e h n =
    omega (arith, admins-insert user admin editor m e, several (admins m) h)
change_keeps_admin user (some viewer) admin m u e h n =
    omega (arith, admins-insert user admin viewer m e, several (admins m) h)
change_keeps_admin user (some editor) editor m u e h n =
    omega (arith, admins-insert user editor editor m e)
change_keeps_admin user (some editor) viewer m u e h n =
    omega (arith, admins-insert user viewer editor m e)
change_keeps_admin user (some viewer) editor m u e h n =
    omega (arith, admins-insert user editor viewer m e)
change_keeps_admin user (some viewer) viewer m u e h n =
    omega (arith, admins-insert user viewer viewer m e)
