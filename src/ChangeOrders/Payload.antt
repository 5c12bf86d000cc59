-- ===== src/ChangeOrders/Payload.antt =====
-- services/change_orders/service.py: what `_proposal_payload` makes of a draft.
use scope_guard.Base.{
  ℕ, String, Bool, true, false, not, ◌&&◌, Option, none, some, List, [], ◌∷◌, if◌then◌else◌, ltb,
  leb, any, Error, Result, ok, err, Exec, pure, raise_if, lift, ◌>>=◌, ◌>>◌, Json, bool, num, str,
  arr, obj, Items, nil, cons, Fields, end, field, get_field,
}
use scope_guard.Payments.Texts.{strip, lower, truthy, get_or}
use scope_guard.ChangeOrders.Tables.{
  order_id, revision_id, capability_id, project_id, record_id, contact_id, decision_id,
  notification_id,
}
use scope_guard.ChangeOrders.Office.{Desk}

-- `isinstance(v, int)`, which a Boolean is too
abbrev pub integer : Option Json → Option ℕ
integer (some (num n)) = some n
integer (some (bool true)) = some 1
integer (some (bool false)) = some 0
integer _ = none

abbrev pub max_total_minor : ℕ
max_total_minor = 100000000

-- A total that is no integer or not positive is refused alike.
unfoldable pub total_in : Option ℕ → Result ℕ
total_in none = err Error.validation
total_in (some n) = if ltb 0 n && leb n max_total_minor then ok n else err Error.validation

unfoldable pub tax_in : ℕ → Option ℕ → Result ℕ
tax_in total none = err Error.validation
tax_in total (some n) = if leb n total then ok n else err Error.validation

abbrev pub required : List String
required =
    "title" ∷ "requested_change" ∷ "deliverables" ∷ "client_explanation" ∷ "subject"
    ∷ "plain_text_body" ∷ "html_body" ∷ "recipient_email" ∷ "evidence_reference_ids" ∷ []

unfoldable pub is_missing : Fields → String → Bool
is_missing draft key = not (truthy (get_field key draft))

-- What `_proposal_payload` makes of a draft. `approval_url` is "/c" at its only call.
pub record Proposal : Type 0 where
  pub baseline_version_id : ℕ
  pub request_version : ℕ
  pub recipient_contact_id : ℕ
  pub recipient_email : String
  pub title : String
  pub requested_change : String
  pub deliverables : Items
  pub exclusions : Items
  pub assumptions : Items
  pub client_explanation : String
  pub subject : String
  pub plain_text_body : String
  pub html_body : String
  pub attachment_hashes : Items
  pub terms : Fields
  pub total_minor : ℕ
  pub tax_minor : ℕ
  pub evidence_reference_ids : Items

-- The dictionary of a proposal, which is hashed.
unfoldable pub artifact : Proposal → Json
artifact p = obj (
    field "schema_version" (num 1) (
      field "baseline_version_id" (num p.baseline_version_id) (
        field "request_version" (num p.request_version) (
          field "recipient_contact_id" (num p.recipient_contact_id) (
            field "recipient_email" (str p.recipient_email) (
              field "title" (str p.title) (
                field "requested_change" (str p.requested_change) (
                  field "deliverables" (arr p.deliverables) (
                    field "exclusions" (arr p.exclusions) (
                      field "assumptions" (arr p.assumptions) (
                        field "client_explanation" (str p.client_explanation) (
                          field "subject" (str p.subject) (
                            field "plain_text_body" (str p.plain_text_body) (
                              field "html_body" (str p.html_body) (
                                field "attachment_hashes" (arr p.attachment_hashes) (
                                  field "terms" (obj p.terms) (
                                    field "evidence_reference_ids" (arr p.evidence_reference_ids)
                                      (field "client_approval_url" (str "/c") end))))))))))))))))))

-- an email address as it is compared: `.strip().casefold()`, which on ASCII is `.lower()`
abbrev pub address : String → String
address s = lower (strip s)

-- `isinstance(terms, dict)`
abbrev pub mapping : Option Json → Option Fields
mapping (some (obj fs)) = some fs
mapping _ = none

abbrev pub found : {A : Type 0} → Option A → Error → Result A
found none e = err e
found (some a) e = ok a

-- the fields of a draft, where they are what Python expects; a key that is not there is no case
-- for `title` and the like, which were found not empty
module _ (desk : Desk) where
  -- `str(v)`
  unfoldable pub text_of : Option Json → String
  text_of none = ""
  text_of (some (str s)) = s
  text_of (some v) = desk.host.repr v

  -- `list(v)`
  unfoldable pub list_of : Option Json → Result Items
  list_of none = ok nil
  list_of (some (arr xs)) = ok xs
  list_of (some v) = found (desk.iterated v) Error.type_error

  -- `[str(item) for item in items]`
  unfoldable pub texts_of : Items → Items
  texts_of nil = nil
  texts_of (cons v vs) = cons (str (text_of (some v))) (texts_of vs)

  module _ (draft : Fields) where
    abbrev pub text_at : String → String
    text_at key = text_of (get_field key draft)

    -- the dictionary at the end of `_proposal_payload`
    unfoldable pub build :
        ℕ → ℕ → ℕ → Fields → ℕ → ℕ → Items → Items → Items → Items → Items → Proposal
    build baseline request_version contact terms total tax deliverables exclusions assumptions
          hashes evidence =
        record {
          baseline_version_id = baseline;
          request_version = request_version;
          recipient_contact_id = contact;
          recipient_email = address (text_at "recipient_email");
          title = text_at "title";
          requested_change = text_at "requested_change";
          deliverables = deliverables;
          exclusions = exclusions;
          assumptions = assumptions;
          client_explanation = text_at "client_explanation";
          subject = text_at "subject";
          plain_text_body = text_at "plain_text_body";
          html_body = text_at "html_body";
          attachment_hashes = hashes;
          terms = terms;
          total_minor = total;
          tax_minor = tax;
          evidence_reference_ids = texts_of evidence;
        }

    -- `_proposal_payload`; it only reads, and runs in any state
    unfoldable pub proposal_payload : {S : Type 0} → ℕ → ℕ → ℕ → Exec S Proposal
    proposal_payload baseline request_version contact = do
      terms ← lift (found (mapping (get_field "terms" draft)) Error.validation)
      total ← lift (total_in (integer (get_field "total_minor" terms)))
      tax ← lift (tax_in total (integer (get_or (get_field "tax_minor" terms) (some (num 0)))))
      raise_if (any (is_missing draft) required) Error.validation
      deliverables ← lift (list_of (get_field "deliverables" draft))
      exclusions ← lift (list_of (get_field "exclusions" draft))
      assumptions ← lift (list_of (get_field "assumptions" draft))
      hashes ← lift (list_of (get_field "attachment_hashes" draft))
      evidence ← lift (list_of (get_field "evidence_reference_ids" draft))
      pure (
          build baseline request_version contact terms total tax deliverables exclusions assumptions
            hashes evidence)
