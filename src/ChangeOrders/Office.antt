-- ===== src/ChangeOrders/Office.antt =====
-- services/change_orders/service.py: what its operations share. Lookups of rows, assignments to rows,
-- new rows, and calls of the worker and payment code in the transaction of the change orders.
use Prim.Native.String.{◌++◌ as text_append}
use scope_guard.Base.{
  ℕ, ◌+◌, ◌==◌, String, Bool, true, false, ◌&&◌, Option, none, some, [], ◌∷◌, ◌++◌, if◌then◌else◌,
  get, edit, Error, Result, ok, Exec, ask, modify, Json, num, str, obj, Items, Fields, end, field,
}
use scope_guard.Workers.Faults.{no_injector}
use scope_guard.Workers.Tables.{Db, Job, AuditEvent, ExternalAction, action_id}
use scope_guard.Workers.Jobs.{enqueue_job}
use scope_guard.Payments.Tables.{Ledger}
use scope_guard.Payments.Texts.{Host}
use scope_guard.Payments.Links.{Settings, on_db}
use scope_guard.ChangeOrders.Tables.{
  ChangeOrderStatus, ChangeOrder, RevisionStatus, ProposalRevision, ClientCapability, Access,
  Project, RequestStatus, RequestRecord, Approval, Office, order_id, revision_id, capability_id,
  session_id, project_id, record_id, contact_id, decision_id, notification_id,
}

-- What the operations take from the libraries and the settings: the hash and the encryption of tokens,
-- `UUID(text)`, `str(uuid)`, `list(v)` of a value that is no list, and the base of review links.
pub record Desk : Type 0 where
  pub host : Host
  pub settings : Settings
  pub hash : String → ℕ
  pub protect : String → Result String
  pub unprotect : String → Result String
  pub uuid_of : String → Option ℕ
  pub uuid_text : ℕ → String
  pub iterated : Json → Option Items
  pub review_base_url : String

-- a call of the payment code, and of the worker code
unfoldable pub on_ledger : {A : Type 0} → Exec Ledger A → Exec Office A
on_ledger m s = let (r, l) = m s.ledger in (r, record s { ledger = l })

unfoldable pub on_work : {A : Type 0} → Exec Db A → Exec Office A
on_work m = on_ledger (on_db m)

unfoldable pub on_access : {A : Type 0} → Exec Access A → Exec Office A
on_access m s = let (r, a) = m s.access in (r, record s { access = a })

-- the identity of a new row
unfoldable pub fresh : Exec Office ℕ
fresh s = (
  ok s.access.next_id,
  record s { access = record (s.access) { next_id = s.access.next_id + 1 } },
)

abbrev pub when : {A : Type 0} → (A → Bool) → Option A → Option A
when p none = none
when p (some a) = if p a then some a else none

-- rows by their primary key and their tenant
unfoldable pub find_order : ℕ → ℕ → Office → Option ChangeOrder
find_order tenant i s = when (λ o. o.tenant_id == tenant) (get i s.access.orders)

unfoldable pub find_project : ℕ → ℕ → Office → Option Project
find_project tenant i s = when (λ p. p.tenant_id == tenant) (get i s.projects)

unfoldable pub find_request : ℕ → ℕ → Office → Option RequestRecord
find_request tenant i s = when (λ r. r.tenant_id == tenant) (get i s.requests)

abbrev pub is_current_status : RevisionStatus → Bool
is_current_status RevisionStatus.current = true
is_current_status _ = false

unfoldable pub is_revision_of : ChangeOrder → ProposalRevision → Bool
is_revision_of order r =
    r.change_order_id == order.id && (r.tenant_id == order.tenant_id && is_current_status r.status)

unfoldable pub revision_of : ChangeOrder → Option ℕ → Office → Option ProposalRevision
revision_of order none s = none
revision_of order (some i) s = when (is_revision_of order) (get i s.access.revisions)

-- `_current_revision`
unfoldable pub current_revision : ChangeOrder → Exec Office ProposalRevision
current_revision order = ask (revision_of order order.current_revision_id) Error.conflict

-- `order.status = target; order.row_version += 1`
unfoldable pub moved_order : ChangeOrderStatus → ChangeOrder → ChangeOrder
moved_order target o = record o { status = target; row_version = o.row_version + 1 }

unfoldable pub move_order : ℕ → ChangeOrderStatus → Exec Office (Unit {0})
move_order i target = modify (λ s. record s {
  access = record (s.access) { orders = edit i (moved_order target) s.access.orders };
})

-- `request.status = …; request.row_version += 1`, if there is the request
unfoldable pub moved_request : RequestStatus → RequestRecord → RequestRecord
moved_request target r = record r { status = target; row_version = r.row_version + 1 }

unfoldable pub move_request : ℕ → RequestStatus → Exec Office (Unit {0})
move_request i target =
    modify (λ s. record s { requests = edit i (moved_request target) s.requests })

-- the same with a reason
unfoldable pub close_request : ℕ → RequestStatus → Option String → Exec Office (Unit {0})
close_request i target reason = modify (λ s. record s {
  requests = edit i (λ r. record (moved_request target r) { rejection_reason = reason }) s.requests;
})

unfoldable pub edit_revision : ℕ → (ProposalRevision → ProposalRevision) → Exec Office (Unit {0})
edit_revision i f =
    modify
      (λ s. record s { access = record (s.access) { revisions = edit i f s.access.revisions } })

unfoldable pub edit_capability : ℕ → (ClientCapability → ClientCapability) → Exec Office (Unit {0})
edit_capability i f =
    modify (λ s. record s {
      access = record (s.access) { capabilities = edit i f s.access.capabilities };
    })

unfoldable pub add_capability : ClientCapability → Exec Office (Unit {0})
add_capability c = modify (λ s. record s {
  access = record (s.access) { capabilities = s.access.capabilities ++ c ∷ [] };
})

-- an assignment to an action outside the worker code; its flush sets `updated_at`
unfoldable pub edit_action : ℕ → ℕ → (ExternalAction → ExternalAction) → Exec Office (Unit {0})
edit_action i now f = on_work (
    modify
      (λ db. record db { actions = edit i (λ a. record (f a) { updated_at = now }) db.actions }))

unfoldable pub add_approval : Approval → Exec Office (Unit {0})
add_approval a = modify (λ s. record s { approvals = s.approvals ++ a ∷ [] })

-- a call of `enqueue_job` with a kind and a payload
unfoldable pub enqueue : ℕ → ℕ → String → Json → ℕ → ℕ → Exec Office Job
enqueue tenant project kind payload correlation now = on_work (
    enqueue_job no_injector
      (record {
        tenant_id = tenant;
        kind = kind;
        payload_ref = payload;
        correlation_id = correlation;
        project_id = some project;
        available_at = none;
        deadline_at = none;
        max_attempts = 3;
        causation_id = none;
      })
      now)

-- `_audit_change_order`, of an order that has just changed its status
module _ (desk : Desk) where
  abbrev pub status_text : ChangeOrderStatus → String
  status_text ChangeOrderStatus.draft = "DRAFT"
  status_text ChangeOrderStatus.awaiting_freelancer_approval = "AWAITING_FREELANCER_APPROVAL"
  status_text ChangeOrderStatus.send_pending = "SEND_PENDING"
  status_text ChangeOrderStatus.awaiting_client_approval = "AWAITING_CLIENT_APPROVAL"
  status_text ChangeOrderStatus.revision_requested = "REVISION_REQUESTED"
  status_text ChangeOrderStatus.client_approved = "CLIENT_APPROVED"
  status_text ChangeOrderStatus.rejected_by_freelancer = "REJECTED_BY_FREELANCER"
  status_text ChangeOrderStatus.rejected_by_client = "REJECTED_BY_CLIENT"
  status_text ChangeOrderStatus.withdrawn = "WITHDRAWN"
  status_text ChangeOrderStatus.expired = "EXPIRED"

  abbrev pub status_of : ChangeOrderStatus → Json
  status_of s = obj (field "status" (str (status_text s)) end)

  unfoldable pub audit_row :
      ChangeOrder → String → String → ChangeOrderStatus → ℕ → Fields → ℕ → ℕ → AuditEvent
  audit_row before actor action after correlation metadata now id =
      let version = before.row_version + 1 in
      record {
        id = id;
        tenant_id = before.tenant_id;
        project_id = some before.project_id;
        actor = actor;
        action = action;
        resource_type = "change_order";
        resource_id = desk.uuid_text before.id;
        resource_revision = some version;
        correlation_id = correlation;
        causation_id = none;
        before_state = status_of before.status;
        after_state = status_of after;
        content_digest = desk.host.canonical_sha256 (
            obj (
              field "change_order_id" (num before.id) (
                field "before" (str (status_text before.status)) (
                  field "after" (str (status_text after))
                    (field "row_version" (num version) end)))));
        safe_metadata = obj metadata;
        created_at = now;
      }

  -- `before` is the order as it was before its change
  unfoldable pub audit_change_order :
      ChangeOrder → String → String → ChangeOrderStatus → ℕ → Fields → ℕ → Exec Office (Unit {0})
  audit_change_order before actor action after correlation metadata now = on_work (λ db. (
    ok tt,
    record db {
      audits =
          db.audits ++ audit_row before actor action after correlation metadata now db.next_id ∷ [];
      next_id = db.next_id + 1;
    },
  ))

  -- `f"client:{client_id}"`
  unfoldable pub client_name : ℕ → String
  client_name i = text_append "client:" (desk.uuid_text i)
