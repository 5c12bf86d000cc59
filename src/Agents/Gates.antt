-- ===== src/Agents/Gates.antt =====
-- services/agents/gates.py `apply_evidence_gate`, on the outputs of services/agents/schemas.py.
use scope_guard.Base.{
  ℕ, String, Bool, true, false, not, ◌&&◌, ◌||◌, Option, none, some, List, [], ◌∷◌, ◌++◌, map, any,
  ◌==◌, if◌then◌else◌,
}

pub data Classification : Type 0 where
  in_scope potential_scope_change ambiguous previously_approved not_a_scope_request : Classification

pub data Coverage : Type 0 where
  complete partial unavailable requires_clarification : Coverage

-- The fields of the scope role's output that the gate reads.
pub record ScopeRoleOutput : Type 0 where
  pub classification : Classification
  pub reason : String
  pub matched_amendment_ids : List ℕ

pub data Relation : Type 0 where
  supports contradicts context : Relation

pub record EvidenceReferenceOutput : Type 0 where
  pub reference_id : ℕ
  pub relation : Relation
  pub claim : String

-- The fields of the evidence role's output that the gate reads.
pub record EvidenceRoleOutput : Type 0 where
  pub final_classification : Classification
  pub supporting_references : List EvidenceReferenceOutput
  pub contradictory_references : List EvidenceReferenceOutput
  pub completeness : Coverage
  pub unresolved_questions : List String

pub data Route : Type 0 where
  no_action clarification covered proposal : Route

pub record GateDecision : Type 0 where
  pub route : Route
  pub classification : Classification
  pub reason : String
  pub required_questions : List String
  pub evidence_reference_ids : List ℕ

unfoldable pub same_class : Classification → Classification → Bool
same_class Classification.in_scope Classification.in_scope = true
same_class Classification.potential_scope_change Classification.potential_scope_change = true
same_class Classification.ambiguous Classification.ambiguous = true
same_class Classification.previously_approved Classification.previously_approved = true
same_class Classification.not_a_scope_request Classification.not_a_scope_request = true
same_class _ _ = false

abbrev pub is_complete : Coverage → Bool
is_complete Coverage.complete = true
is_complete _ = false

abbrev pub is_nil {ℓ} : {A : Type ℓ} → List A → Bool
is_nil [] = true
is_nil (x ∷ xs) = false

-- `questions or [default]`
abbrev pub questions_or : List String → String → List String
questions_or [] d = d ∷ []
questions_or (q ∷ qs) d = q ∷ qs

unfoldable pub is_member : ℕ → List ℕ → Bool
is_member n ns = any (λ m. m == n) ns

-- whether `accepted.intersection(matched)` has an element
unfoldable pub matches : List ℕ → List ℕ → Bool
matches accepted matched = any (λ n. is_member n accepted) matched

abbrev pub clarify : String → List String → List ℕ → GateDecision
clarify reason questions refs = record {
  route = Route.clarification;
  classification = Classification.ambiguous;
  reason = reason;
  required_questions = questions;
  evidence_reference_ids = refs;
}

abbrev pub answer : Route → Classification → String → List ℕ → GateDecision
answer route classification reason refs = record {
  route = route;
  classification = classification;
  reason = reason;
  required_questions = [];
  evidence_reference_ids = refs;
}

unfoldable pub reference_ids : EvidenceRoleOutput → List ℕ
reference_ids e = map (λ r. r.reference_id) (e.supporting_references ++ e.contradictory_references)

abbrev pub is_ambiguous_route : Classification → Route
is_ambiguous_route Classification.ambiguous = Route.clarification
is_ambiguous_route _ = Route.no_action

-- from the test of the final classification on
unfoldable pub by_classification : EvidenceRoleOutput → List ℕ → GateDecision
by_classification e refs =
    if same_class e.final_classification Classification.ambiguous
      || same_class e.final_classification Classification.not_a_scope_request
    then record {
      route = is_ambiguous_route e.final_classification;
      classification = e.final_classification;
      reason = "Evidence does not support a billable additional-work proposal";
      required_questions = e.unresolved_questions;
      evidence_reference_ids = refs;
    }
    else if same_class e.final_classification Classification.potential_scope_change
        && not (is_nil e.supporting_references)
    then answer Route.proposal Classification.potential_scope_change
        "Authorized evidence supports additional work" refs
    else clarify "Evidence did not establish a supported route"
        ("Clarify the request against the confirmed scope" ∷ []) refs

-- from the amendments on
unfoldable pub by_coverage : ScopeRoleOutput → EvidenceRoleOutput → Bool → List ℕ → GateDecision
by_coverage p e amended refs =
    if same_class e.final_classification Classification.previously_approved && not amended
    then clarify "Prior approval was not linked to an accepted amendment"
        ("Provide the accepted amendment reference" ∷ []) refs
    else if amended
    then answer Route.covered Classification.previously_approved
        "An accepted amendment covers the requested work" refs
    else if same_class e.final_classification Classification.in_scope
        || same_class p.classification Classification.in_scope
    then answer Route.covered Classification.in_scope "The confirmed baseline covers the request"
        refs
    else by_classification e refs

unfoldable pub by_evidence : ScopeRoleOutput → EvidenceRoleOutput → List ℕ → Bool → GateDecision
by_evidence p e accepted baseline =
    let refs = reference_ids e in
    if not baseline || not (is_complete e.completeness)
    then clarify "Required evidence coverage is incomplete"
        (questions_or e.unresolved_questions "Provide the missing baseline or request evidence")
        refs
    else if not (is_nil e.contradictory_references)
    then clarify "Evidence contains conflicting promises or scope statements"
        (questions_or e.unresolved_questions "Resolve the conflicting commitments") refs
    else by_coverage p e (matches accepted p.matched_amendment_ids) refs

unfoldable pub gate_evidence :
    ScopeRoleOutput → Option EvidenceRoleOutput → List ℕ → Bool → GateDecision
gate_evidence p none accepted baseline =
    clarify "Evidence verification was not completed"
      ("Provide the governing scope and request evidence" ∷ []) []
gate_evidence p (some e) accepted baseline = by_evidence p e accepted baseline

unfoldable pub apply_evidence_gate :
    ScopeRoleOutput → Option EvidenceRoleOutput → List ℕ → Bool → GateDecision
apply_evidence_gate p evidence accepted baseline =
    if same_class p.classification Classification.not_a_scope_request
    then answer Route.no_action p.classification p.reason []
    else gate_evidence p evidence accepted baseline
