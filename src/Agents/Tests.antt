-- ===== src/Agents/Tests.antt =====
-- The rules of the analysis at concrete inputs.
use scope_guard.Base.{◌≡◌, refl, true, false, none, some, [], ◌∷◌, arith, ok, ◌>>=◌}
use scope_guard.Agents.Gates.{
  Classification, Coverage, ScopeRoleOutput, Relation, EvidenceRoleOutput, apply_evidence_gate,
}
use scope_guard.Agents.Routing.{is_proposal, supports_proposal, proposal_iff_supported}
use scope_guard.Agents.Limits.{
  AnalysisLimits, start_attempt, check_deadline, record_read, record_usage,
}
use scope_guard.Agents.Budgets.{Call, call, calls, IsCharged, calls-IsCharged}

abbrev a_scope : ScopeRoleOutput
a_scope = record {
  classification = Classification.potential_scope_change;
  reason = "new page";
  matched_amendment_ids = [];
}

abbrev an_evidence : EvidenceRoleOutput
an_evidence = record {
  final_classification = Classification.potential_scope_change;
  supporting_references =
      record { reference_id = 3; relation = Relation.supports; claim = "not in the contract" } ∷ [];
  contradictory_references = [];
  completeness = Coverage.complete;
  unresolved_questions = [];
}

proposal_iff_supported_example :
    (is_proposal (apply_evidence_gate a_scope (some an_evidence) (7 ∷ []) true).route
      ≡ supports_proposal a_scope an_evidence (7 ∷ []) true)
    × (is_proposal (apply_evidence_gate a_scope none (7 ∷ []) true).route ≡ false)
proposal_iff_supported_example = proposal_iff_supported a_scope an_evidence (7 ∷ []) true

-- the defaults
abbrev limits : AnalysisLimits
limits = record {
  deadline = 180000;
  max_read_calls = 20;
  max_input_tokens = 40000;
  max_output_tokens = 8000;
  max_attempts = 3;
  max_repairs = 1;
  started_at = 5;
  read_calls = 0;
  input_tokens = 0;
  output_tokens = 0;
  attempts = 0;
  repairs = 0;
}

abbrev used : AnalysisLimits
used = record limits { attempts = 1; read_calls = 20; input_tokens = 500; output_tokens = 70 }

runs : calls (Call.start 9 ∷ Call.read 20 ∷ Call.usage 500 70 ∷ []) limits ≡ (ok tt, used)
unfolding calls call start_attempt check_deadline record_read record_usage ◌>>=◌
runs = refl

calls-IsCharged_example :
    IsCharged (Call.start 9 ∷ Call.read 20 ∷ Call.usage 500 70 ∷ []) limits used
calls-IsCharged_example =
    calls-IsCharged (Call.start 9 ∷ Call.read 20 ∷ Call.usage 500 70 ∷ []) limits used
      (record {
        reads = omega arith;
        inputs = omega arith;
        outputs = omega arith;
        attempts = omega arith;
        repairs = omega arith;
      })
      runs
