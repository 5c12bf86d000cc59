-- ===== src/Agents/Routing.antt =====
-- Work is proposed as billable exactly when complete, uncontradicted evidence supports it.
use scope_guard.Base.{ℕ, ◌≡◌, Bool, true, false, not, ◌&&◌, none, some, List, arith}
use scope_guard.Agents.Gates.{
  Classification, ScopeRoleOutput, EvidenceRoleOutput, Route, reference_ids, same_class,
  is_complete, is_nil, matches, by_classification, by_coverage, by_evidence, gate_evidence,
  apply_evidence_gate,
}

-- The evidence that a proposal needs.
abbrev pub supports_proposal : ScopeRoleOutput → EvidenceRoleOutput → List ℕ → Bool → Bool
supports_proposal p e accepted baseline =
    baseline
    && (is_complete e.completeness
        && (is_nil e.contradictory_references
            && (not (matches accepted p.matched_amendment_ids)
                && (not (same_class p.classification Classification.not_a_scope_request)
                    && (not (same_class p.classification Classification.in_scope)
                        && (same_class e.final_classification Classification.potential_scope_change
                            && not (is_nil e.supporting_references)))))))

abbrev pub is_proposal : Route → Bool
is_proposal Route.proposal = true
is_proposal _ = false

classified :
    (e : EvidenceRoleOutput) (refs : List ℕ)
    → is_proposal (by_classification e refs).route ≡ (
        same_class e.final_classification Classification.potential_scope_change
        && not (is_nil e.supporting_references))
unfolding by_classification same_class
classified e refs = ground arith

covered_case :
    (p : ScopeRoleOutput) (e : EvidenceRoleOutput) (amended : Bool) (refs : List ℕ)
    → is_proposal (by_coverage p e amended refs).route ≡ (
        not amended
        && (not (same_class p.classification Classification.in_scope)
            && (same_class e.final_classification Classification.potential_scope_change
                && not (is_nil e.supporting_references))))
unfolding by_coverage same_class
covered_case p e amended refs = ground (arith, classified e refs)

evidence_case :
    (p : ScopeRoleOutput) (e : EvidenceRoleOutput) (accepted : List ℕ) (baseline : Bool)
    → is_proposal (by_evidence p e accepted baseline).route ≡ (
        baseline
        && (is_complete e.completeness
            && (is_nil e.contradictory_references
                && (not (matches accepted p.matched_amendment_ids)
                    && (not (same_class p.classification Classification.in_scope)
                        && (same_class e.final_classification Classification.potential_scope_change
                            && not (is_nil e.supporting_references)))))))
unfolding by_evidence
evidence_case p e accepted baseline =
    ground (arith, covered_case p e (matches accepted p.matched_amendment_ids) (reference_ids e))

-- The gate routes an analysis to a billable proposal exactly when there is evidence, the baseline and the
-- evidence are complete, nothing contradicts, no accepted amendment matches, the preliminary finding is
-- neither that the work is in scope nor that it is no scope request, and the evidence finds a scope
-- change and has a supporting reference; without evidence it never does.
pub proposal_iff_supported :
    (p : ScopeRoleOutput) (e : EvidenceRoleOutput) (accepted : List ℕ) (baseline : Bool)
    → (is_proposal (apply_evidence_gate p (some e) accepted baseline).route
        ≡ supports_proposal p e accepted baseline)
      × (is_proposal (apply_evidence_gate p none accepted baseline).route ≡ false)
unfolding apply_evidence_gate gate_evidence
proposal_iff_supported p e accepted baseline =
    (ground (arith, evidence_case p e accepted baseline), ground arith)
