-- ===== src/ChangeOrders/Amendments.antt =====
-- services/change_orders/service.py: how an acceptance amends the scope of its project.
use scope_guard.Base.{
  ℕ, ◌+◌, ◌==◌, Bool, ◌&&◌, some, List, [], ◌∷◌, ◌++◌, if◌then◌else◌, edit, filter, max, Exec, pure,
  gets, modify, ◌>>=◌, ◌>>◌, num, obj, end, field,
}
use scope_guard.Workers.Tables.{action_id}
use scope_guard.Payments.Tables.{request_id}
use scope_guard.ChangeOrders.Tables.{
  ProposalRevision, ClientCapability, Project, ScopeVersion, ScopeVersionItem, Office, order_id,
  project_id, capability_id, scope_id,
}
use scope_guard.ChangeOrders.Office.{Desk, fresh, client_name}

-- `coalesce(max(version), previous)` over the versions of a project
unfoldable pub last_version : ℕ → ℕ → List ScopeVersion → ℕ
last_version tenant project [] = 0
last_version tenant project (v ∷ rest) =
    let n = last_version tenant project rest in
    if v.project_id == project && v.tenant_id == tenant then max v.version n else n

-- `max(…) or previous_scope.version`
abbrev pub or_previous : ℕ → ℕ → ℕ
or_previous n previous = if n == 0 then previous else n

unfoldable pub scope_row :
    Desk → ClientCapability → Project → ScopeVersion → ProposalRevision → ℕ → ℕ → ScopeVersion
scope_row desk c project previous r version id = record {
  id = id;
  tenant_id = c.tenant_id;
  project_id = project.id;
  version = version;
  parent_version_id = some previous.id;
  source_revision_id = some r.id;
  confirmation_actor = client_name desk c.client_id;
  content_hash = desk.host.canonical_sha256 (
      obj (
        field "parent" (num previous.content_hash)
          (field "revision" (num r.canonical_artifact_hash) end)));
}

unfoldable pub is_item_of : ℕ → ScopeVersionItem → Bool
is_item_of version i = i.scope_version_id == version

-- the items of the previous version, linked to the resulting one
unfoldable pub copy_items : ℕ → ℕ → ℕ → List ScopeVersionItem → Exec Office (Unit {0})
copy_items tenant project version [] = pure tt
copy_items tenant project version (item ∷ rest) = fresh >>= λ id.
    (modify (λ s. record s {
      scope_items =
          s.scope_items
          ++ record {
            id = id;
            tenant_id = tenant;
            project_id = project;
            scope_version_id = version;
            scope_item_id = item.scope_item_id;
          }
            ∷ [];
    })
      >>= λ _. copy_items tenant project version rest)

unfoldable pub with_scope : ℕ → Project → Project
with_scope version p = record p { current_scope_version_id = some version }

unfoldable pub add_scope : ScopeVersion → Exec Office (Unit {0})
add_scope v = modify (λ s. record s { scopes = s.scopes ++ v ∷ [] })

unfoldable pub point_project : ℕ → ℕ → Exec Office (Unit {0})
point_project i version =
    modify (λ s. record s { projects = edit i (with_scope version) s.projects })

-- `operations_json` says that the revision's order was added, which its columns say too
unfoldable pub add_amendment : ClientCapability → ℕ → ℕ → ℕ → ℕ → ℕ → Exec Office (Unit {0})
add_amendment c project revision previous resulting id = modify (λ s. record s {
  amendments =
      s.amendments
      ++ record {
        id = id;
        tenant_id = c.tenant_id;
        project_id = project;
        accepted_revision_id = revision;
        previous_scope_version_id = previous;
        resulting_scope_version_id = resulting;
      }
        ∷ [];
})

module _ (desk : Desk) where
  -- the new version of the scope, and its amendment
  unfoldable pub amend_scope :
      ClientCapability → ProposalRevision → Project → ScopeVersion → Exec Office (Unit {0})
  amend_scope c r project previous = do
    last ← gets (λ s. last_version c.tenant_id project.id s.scopes)
    id ← fresh
    add_scope (scope_row desk c project previous r (or_previous last previous.version + 1) id)
    links ← gets (λ s. filter (is_item_of previous.id) s.scope_items)
    copy_items c.tenant_id project.id id links
    point_project project.id id
    amendment ← fresh
    add_amendment c project.id r.id previous.id id amendment
