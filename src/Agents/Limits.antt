-- ===== src/Agents/Limits.antt =====
-- services/agents/limits.py: the budgets of one analysis. Times are milliseconds of the monotonic clock.
use scope_guard.Base.{
  ℕ, ◌+◌, ◌||◌, ltb, ◌==◌, Error, Result, ok, err, Exec, raise_if, check, modify, ◌>>◌,
  if◌then◌else◌,
}

-- the constants of the module
abbrev pub max_preparation : ℕ
max_preparation = 180000

abbrev pub max_node : ℕ
max_node = 60000

abbrev pub max_tool : ℕ
max_tool = 15000

pub record AnalysisUsage : Type 0 where
  pub read_calls : ℕ
  pub input_tokens : ℕ
  pub output_tokens : ℕ
  pub attempts : ℕ
  pub repairs : ℕ

pub record AnalysisLimits : Type 0 where
  pub deadline : ℕ
  pub max_read_calls : ℕ
  pub max_input_tokens : ℕ
  pub max_output_tokens : ℕ
  pub max_attempts : ℕ
  pub max_repairs : ℕ
  pub started_at : ℕ
  pub read_calls : ℕ
  pub input_tokens : ℕ
  pub output_tokens : ℕ
  pub attempts : ℕ
  pub repairs : ℕ

unfoldable pub total_tokens : AnalysisUsage → ℕ
total_tokens u = u.input_tokens + u.output_tokens

-- `__post_init__`, with `now` for the monotonic clock; the arguments are natural numbers
unfoldable pub init_limits : AnalysisLimits → ℕ → Result AnalysisLimits
init_limits l now =
    let l' = record l { started_at = if l.started_at == 0 then now else l.started_at } in
    if l.deadline == 0 || ltb max_preparation l.deadline then err Error.validation else ok l'

unfoldable pub check_deadline : ℕ → Exec AnalysisLimits (Unit {0})
check_deadline now l = raise_if (ltb (l.started_at + l.deadline) now) Error.conflict l

-- Each counter is raised before it is compared, and stays raised when the comparison fails.
unfoldable pub start_attempt : ℕ → Exec AnalysisLimits (Unit {0})
start_attempt now = do
  check_deadline now
  modify (λ l. record l { attempts = l.attempts + 1 })
  λ l. raise_if (ltb l.max_attempts l.attempts) Error.conflict l

unfoldable pub record_read : ℕ → Exec AnalysisLimits (Unit {0})
record_read count = do
  modify (λ l. record l { read_calls = l.read_calls + count })
  λ l. raise_if (ltb l.max_read_calls l.read_calls) Error.conflict l

unfoldable pub record_usage : ℕ → ℕ → Exec AnalysisLimits (Unit {0})
record_usage input output = do
  modify (λ l. record l {
    input_tokens = l.input_tokens + input;
    output_tokens = l.output_tokens + output;
  })
  λ l. raise_if (ltb l.max_input_tokens l.input_tokens) Error.conflict l
  λ l. raise_if (ltb l.max_output_tokens l.output_tokens) Error.conflict l

unfoldable pub record_repair : Exec AnalysisLimits (Unit {0})
record_repair = do
  modify (λ l. record l { repairs = l.repairs + 1 })
  λ l. raise_if (ltb l.max_repairs l.repairs) Error.conflict l

unfoldable pub snapshot : AnalysisLimits → AnalysisUsage
snapshot l = record {
  read_calls = l.read_calls;
  input_tokens = l.input_tokens;
  output_tokens = l.output_tokens;
  attempts = l.attempts;
  repairs = l.repairs;
}

unfoldable pub validate_tool_timeout : ℕ → Result (Unit {0})
validate_tool_timeout t = check (t == 0 || ltb max_tool t) Error.validation

unfoldable pub validate_node_timeout : ℕ → Result (Unit {0})
validate_node_timeout t = check (t == 0 || ltb max_node t) Error.validation
