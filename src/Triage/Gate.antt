-- ===== src/Triage/Gate.antt =====
-- `triage_trace`, what it infers, and `activation_passes`.
use Prim.Native.Nat.{min}
use membox.Base.{
  ℕ, String, Bool, true, false, not, ◌&&◌, ◌||◌, List, [], ◌∷◌, leb, if◌then◌else◌, any_of, all_of,
  str_eq,
}
use membox.Base.Text.{casefold, contains, member}
use membox.Model.{UnitType, TemporalType, UserIntent, is_memory_label}
use membox.Model.Enums.{same_type}
use membox.Triage.Shapes.{Characters, text_take, is_boilerplate_content, has_any, first_line}

abbrev pub explicit_memory : List String
explicit_memory =
    "remember" ∷ "always" ∷ "never" ∷ "rule" ∷ "decision" ∷ "we decided" ∷ "use this going forward"
    ∷ "记住" ∷ "以后" ∷ "规则" ∷ "决定" ∷ []

abbrev pub durable_change : List String
durable_change =
    "architecture" ∷ "schema" ∷ "migration" ∷ "api contract" ∷ "cli" ∷ "storage" ∷ "retrieval"
    ∷ "fts" ∷ "validation gate" ∷ "架构" ∷ "迁移" ∷ "存储" ∷ "检索" ∷ []

abbrev pub fix_signals : List String
fix_signals = "error" ∷ "failed" ∷ "failure" ∷ "bug" ∷ "fixed" ∷ "resolved" ∷ "修复" ∷ "报错" ∷ []

abbrev pub procedure_signals : List String
procedure_signals =
    "step" ∷ "first" ∷ "then" ∷ "verify" ∷ "run `" ∷ "command" ∷ "步骤" ∷ "先" ∷ "然后" ∷ []

abbrev pub correction_signals : List String
correction_signals = "correction" ∷ "actually" ∷ "instead" ∷ "不是" ∷ "纠正" ∷ "改成" ∷ "更正" ∷ []

abbrev pub plan_signals : List String
plan_signals = "plan" ∷ "todo" ∷ "next" ∷ "roadmap" ∷ "计划" ∷ "下一步" ∷ []

abbrev pub fact_signals : List String
fact_signals = "fact:" ∷ "fact snapshot" ∷ "updated fact" ∷ "事实：" ∷ "事实:" ∷ []

abbrev pub plan_declaration_signals : List String
plan_declaration_signals = "plan:" ∷ "roadmap:" ∷ "next step" ∷ "计划：" ∷ "计划:" ∷ []

abbrev pub label_keywords : List (String × List String)
label_keywords =
    ("architecture", "architecture" ∷ "schema" ∷ "migration" ∷ "架构" ∷ "迁移" ∷ [])
    ∷ ("storage", "storage" ∷ "sqlite" ∷ "database" ∷ "存储" ∷ [])
    ∷ ("retrieval", "retrieval" ∷ "fts" ∷ "query" ∷ "检索" ∷ [])
    ∷ ("cli", "cli" ∷ "command" ∷ "membox " ∷ "命令" ∷ [])
    ∷ ("testing", "test" ∷ "pytest" ∷ "eval" ∷ "gate" ∷ "测试" ∷ "验收" ∷ [])
    ∷ ("tooling", "tool" ∷ "ruff" ∷ "mypy" ∷ "uv " ∷ "工具" ∷ [])
    ∷ ("workflow", "workflow" ∷ "process" ∷ "steps" ∷ "流程" ∷ [])
    ∷ ("conventions", "convention" ∷ "rule" ∷ "style" ∷ "约定" ∷ "规则" ∷ [])
    ∷ ("dependencies", "dependency" ∷ "package" ∷ "依赖" ∷ [])
    ∷ ("performance", "performance" ∷ "cache" ∷ "batch" ∷ "latency" ∷ "性能" ∷ [])
    ∷ ("security", "secret" ∷ "token" ∷ "redact" ∷ "安全" ∷ [])
    ∷ []

pub record GateDecision : Type 0 where
  pub should_extract : Bool
  pub unit_type : UnitType
  pub importance_score : ℕ
  pub confidence_score : ℕ
  pub temporal_type : TemporalType
  pub user_intent : UserIntent
  pub extraction_hint : String
  pub reason : String
  pub labels : List String

abbrev pub is_manual : UserIntent → Bool
is_manual UserIntent.manual = true
is_manual UserIntent.auto = false

-- The signals that the gate reads of a text and its role.
pub record Signals : Type 0 where
  pub manual : Bool
  pub is_event : Bool
  pub explicit : Bool
  pub durable : Bool
  pub declared_fact : Bool
  pub declared_plan : Bool
  pub failing : Bool
  pub fix : Bool
  pub procedure : Bool
  pub correction : Bool
  pub role_weighted_explicit : Bool

unfoldable pub signals_of : Characters → String → String → UserIntent → String → Signals
signals_of chars lowered role user_intent trace_kind =
    let explicit = has_any chars lowered explicit_memory in
    let failing = has_any chars lowered fix_signals in
    record {
      manual = is_manual user_intent;
      is_event = str_eq trace_kind "event";
      explicit = explicit;
      durable = has_any chars lowered durable_change;
      declared_fact = has_any chars lowered fact_signals;
      declared_plan = has_any chars lowered plan_declaration_signals;
      failing = failing;
      fix =
          failing
          && has_any chars lowered ("fixed" ∷ "resolved" ∷ "pass" ∷ "green" ∷ "修复" ∷ "解决" ∷ []);
      procedure = has_any chars lowered procedure_signals;
      correction = has_any chars lowered correction_signals;
      role_weighted_explicit = explicit && member role ("user" ∷ "developer" ∷ "system" ∷ []);
    }

-- The importance, the confidence and the reason of a decision.
pub record Verdict : Type 0 where
  pub importance : ℕ
  pub confidence : ℕ
  pub reason : String

abbrev verdict : ℕ → ℕ → String → Verdict
verdict importance confidence reason = record {
  importance = importance;
  confidence = confidence;
  reason = reason;
}

-- The chain of the gate's tests: the first that holds gives the verdict.
unfoldable pub verdict_by : Bool → Bool → Bool → Bool → Bool → Bool → Verdict
verdict_by manual ruled fixed intended fact planned =
    if manual
    then verdict 90 85 "manual_intent"
    else if ruled
    then verdict 80 75 "explicit_decision_or_rule"
    else if fixed
    then verdict 65 65 "failure_fix_or_procedure"
    else if intended
    then verdict 65 60 "durable_change_with_intent"
    else if fact
    then verdict 65 60 "declared_durable_fact"
    else if planned
    then verdict 55 55 "declared_durable_plan"
    else verdict 35 50 "weak_context_only"

unfoldable pub verdict_of : Signals → Verdict
unfolding verdict_by
verdict_of g =
    verdict_by g.manual (g.role_weighted_explicit || g.correction)
      (g.fix || (g.procedure && not g.is_event && (g.durable || g.explicit || g.failing)))
      (g.durable && g.explicit) (g.durable && g.declared_fact)
      (g.durable && g.declared_plan && not g.is_event)

unfoldable pub infer_unit_type : Characters → String → Signals → UnitType
infer_unit_type chars lowered g =
    if g.failing && (g.procedure || g.fix)
    then if g.procedure then UnitType.procedure else UnitType.learning
    else if g.correction
    then UnitType.decision
    else if contains "preference" lowered
        || contains "always" lowered
        || contains "never" lowered
        || contains "以后" lowered
    then UnitType.preference
    else if contains "decision" lowered
        || contains "we decided" lowered
        || contains "决定" lowered
        || contains "记住" lowered
    then UnitType.decision
    else if g.procedure
    then UnitType.procedure
    else if g.fix
    then UnitType.learning
    else if g.declared_fact
    then UnitType.fact
    else if has_any chars lowered plan_signals
    then UnitType.plan
    else if has_any chars lowered durable_change
    then UnitType.fact
    else UnitType.context

unfoldable pub infer_temporal : String → TemporalType
infer_temporal lowered =
    if contains "always" lowered || contains "never" lowered || contains "以后" lowered
    then TemporalType.ongoing
    else if contains "next" lowered || contains "plan" lowered || contains "下一步" lowered
    then TemporalType.range
    else TemporalType.unknown

unfoldable pub labels_among : String → List (String × List String) → List String
labels_among lowered [] = []
labels_among lowered (row ∷ rows) =
    let rest = labels_among lowered rows in
    if any_of (λ keyword. contains keyword lowered) row.1 then row.0 ∷ rest else rest

unfoldable pub or_workflow : List String → List String
or_workflow [] = "workflow" ∷ []
or_workflow (label ∷ labels) = label ∷ labels

unfoldable pub infer_labels : String → List String
unfolding labels_among or_workflow
infer_labels lowered = or_workflow (labels_among lowered label_keywords)

unfoldable pub boilerplate : String → UserIntent → GateDecision
boilerplate window user_intent = record {
  should_extract = false;
  unit_type = UnitType.context;
  importance_score = 0;
  confidence_score = 0;
  temporal_type = TemporalType.unknown;
  user_intent = user_intent;
  extraction_hint = text_take 200 (first_line window);
  reason = "boilerplate_content";
  labels = [];
}

-- The decision on a text that is not boilerplate.
unfoldable pub decide : Characters → String → String → UserIntent → String → GateDecision
unfolding signals_of verdict_of infer_unit_type infer_labels infer_temporal
decide chars window role user_intent trace_kind =
    let lowered = casefold chars.fold window in
    let g = signals_of chars lowered role user_intent trace_kind in
    let v = verdict_of g in
    record {
      should_extract = not (str_eq v.reason "weak_context_only");
      unit_type = infer_unit_type chars lowered g;
      importance_score = v.importance;
      confidence_score = min v.confidence 85;
      temporal_type = infer_temporal lowered;
      user_intent = user_intent;
      extraction_hint = text_take 200 (first_line window);
      reason = v.reason;
      labels = infer_labels lowered;
    }

unfoldable pub triage_trace : Characters → String → String → UserIntent → String → GateDecision
unfolding boilerplate decide
triage_trace chars text role user_intent trace_kind =
    let window = text_take 4000 text in
    if is_boilerplate_content chars window
    then boilerplate window user_intent
    else decide chars window role user_intent trace_kind

abbrev pub unit_type_priority : List UnitType
unit_type_priority =
    UnitType.preference ∷ UnitType.decision ∷ UnitType.procedure ∷ UnitType.fact ∷ UnitType.learning
    ∷ UnitType.plan ∷ UnitType.event ∷ UnitType.context ∷ []

unfoldable pub activation_passes : GateDecision → Bool → Bool
activation_passes decision has_source =
    has_source
    && any_of (same_type decision.unit_type) unit_type_priority
    && all_of is_memory_label decision.labels
    && leb 50 decision.confidence_score
    && (leb 45 decision.importance_score || is_manual decision.user_intent)
