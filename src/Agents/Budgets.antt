-- ===== src/Agents/Budgets.antt =====
-- An analysis whose calls all return stays within its budgets.
use scope_guard.Base.{
  ℕ, ◌+◌, ◌≡◌, ◌≤◌, refl, sym, ap, ◌∙◌, Bool, true, false, List, [], ◌∷◌, arith, ltb, Error, Result,
  ok, Exec, pure, raise_if, modify, ◌>>=◌, ◌>>◌, bind_inv, subst,
}
use scope_guard.Agents.Limits.{
  AnalysisLimits, check_deadline, start_attempt, record_read, record_usage, record_repair,
}

-- One call of the analysis.
pub data Call : Type 0 where
  start : ℕ → Call
  read : ℕ → Call
  usage : ℕ → ℕ → Call
  repair : Call

unfoldable pub call : Call → Exec AnalysisLimits (Unit {0})
call (Call.start now) = start_attempt now
call (Call.read n) = record_read n
call (Call.usage input output) = record_usage input output
call Call.repair = record_repair

-- calls one after the other, until one raises
unfoldable pub calls : List Call → Exec AnalysisLimits (Unit {0})
calls [] = pure tt
calls (c ∷ cs) = call c >> calls cs

-- what the calls ask for in all
unfoldable pub reads_of : List Call → ℕ
reads_of [] = 0
reads_of (Call.read n ∷ cs) = n + reads_of cs
reads_of (_ ∷ cs) = reads_of cs

unfoldable pub inputs_of : List Call → ℕ
inputs_of [] = 0
inputs_of (Call.usage input output ∷ cs) = input + inputs_of cs
inputs_of (_ ∷ cs) = inputs_of cs

unfoldable pub outputs_of : List Call → ℕ
outputs_of [] = 0
outputs_of (Call.usage input output ∷ cs) = output + outputs_of cs
outputs_of (_ ∷ cs) = outputs_of cs

unfoldable pub attempts_of : List Call → ℕ
attempts_of [] = 0
attempts_of (Call.start now ∷ cs) = 1 + attempts_of cs
attempts_of (_ ∷ cs) = attempts_of cs

unfoldable pub repairs_of : List Call → ℕ
repairs_of [] = 0
repairs_of (Call.repair ∷ cs) = 1 + repairs_of cs
repairs_of (_ ∷ cs) = repairs_of cs

pub record IsWithinBudget (l : AnalysisLimits) : Type 0 where
  pub reads : l.read_calls ≤ l.max_read_calls
  pub inputs : l.input_tokens ≤ l.max_input_tokens
  pub outputs : l.output_tokens ≤ l.max_output_tokens
  pub attempts : l.attempts ≤ l.max_attempts
  pub repairs : l.repairs ≤ l.max_repairs

-- what calls that return leave
pub record IsCharged (c : List Call) (l m : AnalysisLimits) : Type 0 where
  pub within : IsWithinBudget m
  pub reads : m.read_calls ≡ l.read_calls + reads_of c
  pub inputs : m.input_tokens ≡ l.input_tokens + inputs_of c
  pub outputs : m.output_tokens ≡ l.output_tokens + outputs_of c
  pub attempts : m.attempts ≡ l.attempts + attempts_of c
  pub repairs : m.repairs ≡ l.repairs + repairs_of c
  pub limits :
      (m.max_read_calls ≡ l.max_read_calls)
      × (m.max_input_tokens ≡ l.max_input_tokens)
      × (m.max_output_tokens ≡ l.max_output_tokens)
      × (m.max_attempts ≡ l.max_attempts)
      × (m.max_repairs ≡ l.max_repairs)

-- a raise that did not happen
passed :
    (b : Bool) (l m : AnalysisLimits)
    → ◌≡◌ {A = Result (Unit {0}) × AnalysisLimits} (raise_if b Error.conflict l) (ok tt, m)
    → (b ≡ false) × (l ≡ m)
passed true l m e = absurd cc
passed false l m e = (refl, cc)

not_above : (a b : ℕ) → ltb a b ≡ false → b ≤ a
not_above a b h = ground (arith, h)

-- a counter that was raised and is not over its limit
raised :
    (f : AnalysisLimits → AnalysisLimits) (over : AnalysisLimits → Bool) (l m : AnalysisLimits)
    → (modify f >>= λ _. λ x. raise_if (over x) Error.conflict x) l ≡ (ok tt, m)
    → (over (f l) ≡ false) × (f l ≡ m)
unfolding ◌>>=◌
raised f over l m e = passed (over (f l)) (f l) m e

add_attempt : AnalysisLimits → AnalysisLimits
add_attempt l = record l { attempts = l.attempts + 1 }

call-Charged :
    (c : Call) (l m : AnalysisLimits)
    → IsWithinBudget l
    → call c l ≡ (ok tt, m)
    → IsCharged (c ∷ []) l m
unfolding call start_attempt check_deadline record_read record_usage record_repair reads_of
    inputs_of outputs_of attempts_of repairs_of add_attempt
call-Charged (Call.start now) l m w e =
    let (_, u, e₀, e₁) = bind_inv _ _ l m tt e in
    let (_, same) = passed (ltb (l.started_at + l.deadline) now) l u e₀ in
    let (free, kept) = raised add_attempt (λ x. ltb x.max_attempts x.attempts) u m e₁ in
    subst (IsCharged (Call.start now ∷ []) l) (ap add_attempt same ∙ kept) (record {
      within = record {
        reads = w.reads;
        inputs = w.inputs;
        outputs = w.outputs;
        repairs = w.repairs;
        attempts = not_above l.max_attempts (l.attempts + 1) (
            subst (λ (x : AnalysisLimits). ltb x.max_attempts (x.attempts + 1) ≡ false) (sym same)
              free);
      };
      reads = omega arith;
      inputs = omega arith;
      outputs = omega arith;
      attempts = omega arith;
      repairs = omega arith;
      limits = (refl, refl, refl, refl, refl);
    })
call-Charged (Call.read n) l m w e =
    let (free, kept) =
      raised (λ x. record x { read_calls = x.read_calls + n })
        (λ x. ltb x.max_read_calls x.read_calls) l m e in
    subst (IsCharged (Call.read n ∷ []) l) kept (record {
      within = record {
        reads = not_above l.max_read_calls (l.read_calls + n) free;
        inputs = w.inputs;
        outputs = w.outputs;
        attempts = w.attempts;
        repairs = w.repairs;
      };
      reads = omega arith;
      inputs = omega arith;
      outputs = omega arith;
      attempts = omega arith;
      repairs = omega arith;
      limits = (refl, refl, refl, refl, refl);
    })
call-Charged (Call.usage input output) l m w e =
    let l' : AnalysisLimits = record l {
      input_tokens = l.input_tokens + input;
      output_tokens = l.output_tokens + output;
    } in
    let (_, u, e₀, e₁) = bind_inv _ _ l m tt e in
    let charged : l' ≡ u = ap (λ (x : Result (Unit {0}) × AnalysisLimits). x.1) e₀ in
    let (_, v, e₂, e₃) = bind_inv _ _ u m tt e₁ in
    let (free_in, same) = passed (ltb u.max_input_tokens u.input_tokens) u v e₂ in
    let (free_out, kept) = passed (ltb v.max_output_tokens v.output_tokens) v m e₃ in
    subst (IsCharged (Call.usage input output ∷ []) l) (charged ∙ same ∙ kept) (record {
      within = record {
        reads = w.reads;
        attempts = w.attempts;
        repairs = w.repairs;
        inputs = not_above l'.max_input_tokens l'.input_tokens (
            subst (λ (x : AnalysisLimits). ltb x.max_input_tokens x.input_tokens ≡ false)
              (sym charged) free_in);
        outputs = not_above l'.max_output_tokens l'.output_tokens (
            subst (λ (x : AnalysisLimits). ltb x.max_output_tokens x.output_tokens ≡ false)
              (sym (charged ∙ same)) free_out);
      };
      reads = omega arith;
      inputs = omega arith;
      outputs = omega arith;
      attempts = omega arith;
      repairs = omega arith;
      limits = (refl, refl, refl, refl, refl);
    })
call-Charged Call.repair l m w e =
    let (free, kept) =
      raised (λ x. record x { repairs = x.repairs + 1 }) (λ x. ltb x.max_repairs x.repairs) l m e in
    subst (IsCharged (Call.repair ∷ []) l) kept (record {
      within = record {
        reads = w.reads;
        inputs = w.inputs;
        outputs = w.outputs;
        attempts = w.attempts;
        repairs = not_above l.max_repairs (l.repairs + 1) free;
      };
      reads = omega arith;
      inputs = omega arith;
      outputs = omega arith;
      attempts = omega arith;
      repairs = omega arith;
      limits = (refl, refl, refl, refl, refl);
    })

reads_cons : (c : Call) (cs : List Call) → reads_of (c ∷ cs) ≡ reads_of (c ∷ []) + reads_of cs
unfolding reads_of
reads_cons (Call.start n) cs = omega arith
reads_cons (Call.read n) cs = omega arith
reads_cons (Call.usage i o) cs = omega arith
reads_cons Call.repair cs = omega arith

inputs_cons : (c : Call) (cs : List Call) → inputs_of (c ∷ cs) ≡ inputs_of (c ∷ []) + inputs_of cs
unfolding inputs_of
inputs_cons (Call.start n) cs = omega arith
inputs_cons (Call.read n) cs = omega arith
inputs_cons (Call.usage i o) cs = omega arith
inputs_cons Call.repair cs = omega arith

outputs_cons :
    (c : Call) (cs : List Call) → outputs_of (c ∷ cs) ≡ outputs_of (c ∷ []) + outputs_of cs
unfolding outputs_of
outputs_cons (Call.start n) cs = omega arith
outputs_cons (Call.read n) cs = omega arith
outputs_cons (Call.usage i o) cs = omega arith
outputs_cons Call.repair cs = omega arith

attempts_cons :
    (c : Call) (cs : List Call) → attempts_of (c ∷ cs) ≡ attempts_of (c ∷ []) + attempts_of cs
unfolding attempts_of
attempts_cons (Call.start n) cs = omega arith
attempts_cons (Call.read n) cs = omega arith
attempts_cons (Call.usage i o) cs = omega arith
attempts_cons Call.repair cs = omega arith

repairs_cons :
    (c : Call) (cs : List Call) → repairs_of (c ∷ cs) ≡ repairs_of (c ∷ []) + repairs_of cs
unfolding repairs_of
repairs_cons (Call.start n) cs = omega arith
repairs_cons (Call.read n) cs = omega arith
repairs_cons (Call.usage i o) cs = omega arith
repairs_cons Call.repair cs = omega arith

-- When every call of a sequence returns, the analysis is within all its budgets at the end if it was at the
-- start; each of the five counters - read calls, input tokens, output tokens, attempts and repairs - is
-- that of before and exactly what the sequence asked for; and the five limits have not changed.
pub calls-IsCharged :
    (cs : List Call) (l m : AnalysisLimits)
    → IsWithinBudget l
    → calls cs l ≡ (ok tt, m)
    → IsCharged cs l m
unfolding calls reads_of inputs_of outputs_of attempts_of repairs_of
calls-IsCharged [] l m w e =
    subst (IsCharged [] l) (ap (λ (x : Result (Unit {0}) × AnalysisLimits). x.1) e) (record {
      within = w;
      reads = omega arith;
      inputs = omega arith;
      outputs = omega arith;
      attempts = omega arith;
      repairs = omega arith;
      limits = (refl, refl, refl, refl, refl);
    })
calls-IsCharged (c ∷ cs) l m w e =
    let (_, u, e₀, e₁) = bind_inv _ _ l m tt e in
    let first = call-Charged c l u w e₀ in
    let rest = calls-IsCharged cs u m first.within e₁ in
    record {
      within = rest.within;
      reads = omega (arith, first.reads, rest.reads, reads_cons c cs);
      inputs = omega (arith, first.inputs, rest.inputs, inputs_cons c cs);
      outputs = omega (arith, first.outputs, rest.outputs, outputs_cons c cs);
      attempts = omega (arith, first.attempts, rest.attempts, attempts_cons c cs);
      repairs = omega (arith, first.repairs, rest.repairs, repairs_cons c cs);
      limits = (
        rest.limits.0 ∙ first.limits.0,
        rest.limits.1 ∙ first.limits.1,
        rest.limits.2 ∙ first.limits.2,
        rest.limits.3 ∙ first.limits.3,
        rest.limits.4 ∙ first.limits.4,
      );
    }
