-- ===== src/Domain/Auth.antt =====
-- services/domain/auth.py: the identity that the server derives for a request.
use scope_guard.Base.{ℕ, String, Bool, not, ◌==◌, Error, Result, ok, err, check}

pub record TrustedContext : Type 0 where
  pub tenant_id : ℕ
  pub subject : String
  pub email : String
  pub email_verified : Bool
  pub correlation_id : ℕ

unfoldable pub require_tenant : TrustedContext → ℕ → Result (Unit {0})
require_tenant context resource_tenant_id =
    check (not (resource_tenant_id == context.tenant_id)) Error.authorization

unfoldable pub require_project : TrustedContext → ℕ → ℕ → Result ℕ
require_project context resource_tenant_id project_id =
    elim (require_tenant context resource_tenant_id) [ ok _ ↦ ok project_id | err e ↦ err e ]
