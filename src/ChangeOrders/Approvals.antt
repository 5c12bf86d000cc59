-- ===== src/ChangeOrders/Approvals.antt =====
-- services/change_orders/service.py: the freelancer approves the exact revision, which is then sent.
use Prim.Native.String.{◌++◌ as text_append}
use scope_guard.Base.{
  ℕ, ◌+◌, ◌==◌, String, Bool, true, false, not, ◌&&◌, ◌||◌, Option, none, some, List, [], ◌∷◌, leb,
  some_eq, get, find?, filter, any, Error, Exec, pure, raise_if, gets, ask, ◌>>=◌, ◌>>◌, Json, num,
  str, arr, obj, Items, nil, cons, Fields, end, field, is_none,
}
use scope_guard.Domain.Auth.{TrustedContext}
use scope_guard.Workers.Tables.{ActionKey, ExternalAction, seconds}
use scope_guard.Workers.Actions.{ActionRequest, prepare_external_action}
use scope_guard.ChangeOrders.Tables.{
  ChangeOrderStatus, ChangeOrder, ProposalRevision, ClientCapability, EvidenceReference,
  EvidenceBundle, Approval, Actor, Verdict, Office, order_id, capability_id,
}
use scope_guard.ChangeOrders.Office.{
  Desk, on_work, fresh, find_order, find_project, find_request, current_revision, move_order,
  edit_capability, add_approval, enqueue,
}
use scope_guard.ChangeOrders.Payload.{text_of}

abbrev pub awaits_freelancer : ChangeOrderStatus → Bool
awaits_freelancer ChangeOrderStatus.awaiting_freelancer_approval = true
awaits_freelancer _ = false

-- the identities that parse; the others are passed over
unfoldable pub parsed_ids : Desk → Items → List ℕ
parsed_ids desk nil = []
parsed_ids desk (cons v vs) = elim (desk.uuid_of (text_of desk (some v))) [
  | none ↦ parsed_ids desk vs
  | some i ↦ i ∷ parsed_ids desk vs
]

unfoldable pub is_cited : ℕ → ℕ → List ℕ → EvidenceReference → Bool
is_cited tenant project ids e =
    any (λ i. i == e.id) ids && (e.tenant_id == tenant && e.project_id == project)

-- `stale_at is not None and stale_at <= now`
abbrev pub is_past : Option ℕ → ℕ → Bool
is_past none now = false
is_past (some t) now = leb t now

unfoldable pub is_stale_source : List EvidenceReference → ℕ → EvidenceBundle → Bool
is_stale_source evidence now b = any (λ e. e.bundle_id == b.id) evidence && is_past b.stale_at now

-- whether a bundle that the revision cites has gone stale
unfoldable pub cites_stale : Desk → ℕ → ℕ → ProposalRevision → ℕ → Office → Bool
cites_stale desk tenant project r now s =
    let evidence =
      filter (is_cited tenant project (parsed_ids desk r.evidence_reference_ids)) s.references in
    any (is_stale_source evidence now) s.bundles

unfoldable pub approval_row :
    ChangeOrder
    → ℕ
    → ℕ
    → Actor
    → String
    → ℕ
    → Verdict
    → Option String
    → Option String
    → ℕ
    → ℕ
    → Approval
approval_row order tenant revision actor name hash decision key comment now id = record {
  id = id;
  tenant_id = tenant;
  project_id = order.project_id;
  change_order_id = order.id;
  revision_id = revision;
  actor_type = actor;
  actor_identifier = name;
  content_hash = hash;
  decision = decision;
  idempotency_key = key;
  comment = comment;
  created_at = now;
}

unfoldable pub opens_revision : ℕ → ℕ → ClientCapability → Bool
opens_revision tenant revision c =
    c.revision_id == revision && (c.tenant_id == tenant && is_none c.revoked_at)

unfoldable pub activated : ℕ → ClientCapability → ClientCapability
activated now c = record c { activated_at = some now; expires_at = some (now + seconds 604800) }

-- `f"ScopeGuard/{order.id}/{revision.id}"`
abbrev pub marker : Desk → ℕ → ℕ → String
marker desk order revision =
    text_append "ScopeGuard/"
      (text_append (desk.uuid_text order) (text_append "/" (desk.uuid_text revision)))

-- What is sent: the content of the revision, with its hash and a marker.
unfoldable pub send_payload : Desk → ChangeOrder → ProposalRevision → Fields
send_payload desk order r = field "change_order_id" (num order.id) (
    field "revision_id" (num r.id) (
      field "recipient" (str r.recipient_email) (
        field "subject" (str r.subject) (
          field "plain_text_body" (str r.plain_text_body) (
            field "html_body" (str r.html_body) (
              field "attachment_hashes" (arr r.attachment_hashes) (
                field "content_hash" (num r.canonical_artifact_hash)
                  (field "marker" (str (marker desk order.id r.id)) end))))))))

unfoldable pub send_action : Desk → ℕ → ChangeOrder → ProposalRevision → ActionRequest
send_action desk tenant order r = record {
  tenant_id = tenant;
  action_key = ActionKey.change_order_send order.id r.id;
  provider = "gmail";
  operation = "send";
  approved_payload = obj (send_payload desk order r);
  project_id = some order.project_id;
}

abbrev pub send_ref : ExternalAction → ChangeOrder → ProposalRevision → Json
send_ref action order r = obj (
    field "action_id" (num action.id)
      (field "change_order_id" (num order.id) (field "revision_id" (num r.id) end)))

unfoldable pub is_stale_approval : ProposalRevision → ℕ → ℕ → Bool
is_stale_approval r revision hash =
    not (r.id == revision) || not (r.canonical_artifact_hash == hash)

module _ (desk : Desk) (context : TrustedContext) (now : ℕ) where
  -- what the approval writes, from `approval = Approval(…)` on
  unfoldable pub record_approval :
      ChangeOrder → ProposalRevision → ℕ → Exec Office (ChangeOrder × ExternalAction)
  record_approval order r hash = do
    id ← fresh
    add_approval (
        approval_row order context.tenant_id r.id Actor.freelancer context.subject hash
          Verdict.approved none none now id)
    capability ←
        ask (λ s. find? (opens_revision context.tenant_id r.id) s.access.capabilities)
          Error.conflict
    edit_capability capability.id (activated now)
    move_order order.id ChangeOrderStatus.send_pending
    action ← on_work (
        prepare_external_action desk.host.canonical_sha256
          (send_action desk context.tenant_id order r) now)
    enqueue context.tenant_id order.project_id "change_order.send" (send_ref action order r)
        context.correlation_id now
    updated ← ask (λ s. get order.id s.access.orders) Error.conflict
    pure (updated, action)

  -- The first lookup of the source, of the project by the identity of the order, finds a project
  -- exactly where the two lookups that follow it do, and raises the same error.
  unfoldable pub approve_freelancer : ℕ → ℕ → ℕ → ℕ → Exec Office (ChangeOrder × ExternalAction)
  approve_freelancer i expected_row_version revision_id content_hash = do
    order ← ask (find_order context.tenant_id i) Error.not_found
    project ← ask (find_project context.tenant_id order.project_id) Error.not_found
    raise_if (not (order.row_version == expected_row_version)) Error.conflict
    r ← current_revision order
    raise_if (is_stale_approval r revision_id content_hash) Error.conflict
    raise_if (not (awaits_freelancer order.status)) Error.conflict
    request ← ask (find_request context.tenant_id order.request_id) Error.conflict
    raise_if (not (request.request_version == r.request_version)) Error.conflict
    raise_if (not (some_eq project.current_scope_version_id r.baseline_version_id)) Error.conflict
    stale ← gets (cites_stale desk context.tenant_id project.id r now)
    raise_if stale Error.conflict
    record_approval order r content_hash
