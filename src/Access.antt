-- ===== src/Access.antt =====
-- Who may do what in an organisation: apps/web/server/utils/rbac.ts and
-- apps/web/server/orgs/membership-rules.ts.
pub mod Roles
pub mod Laws
mod Tests
