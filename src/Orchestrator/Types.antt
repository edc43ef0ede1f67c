-- ===== src/Orchestrator/Types.antt =====
-- workbench_orchestrator/types.py, and `Step` and `WorkflowDef` of engine.py. `V` is what a state
-- dict holds, `W` the outside world that the step functions read and change. A message that the
-- source formats is a constructor with the values that it prints.
use ai_agents_enterprise.Prelude.{
  ℕ, String, Bool, true, false, Option, none, some, List, [], ◌∷◌, Dict, map, find, keep, ◌==◌,
  ◌||◌, any, if◌then◌else◌,
}

pub data StepStatus : Type 0 where
  succeeded failed retried : StepStatus

pub data RunStatus : Type 0 where
  running completed failed awaiting_approval rejected : RunStatus

pub data ApprovalDecision : Type 0 where
  approved rejected : ApprovalDecision

pub record StepAttempt (V : Type 0) : Type 0 where
  pub step : String
  pub attempt : ℕ
  pub status : StepStatus
  pub latency_ms : ℕ
  pub error : Option String
  pub updates : Dict V

pub record ApprovalRecord : Type 0 where
  pub step : String
  pub decision : ApprovalDecision
  pub actor : String
  pub reason : Option String
  pub decided_at : String

-- The texts of `run.error`.
pub data RunError : Type 0 where
  budget_exceeded : RunError
  step_failed : (step : String) (max_attempts : ℕ) → RunError
  rejected_by : (step actor : String) → RunError

-- The texts of `run.approval_prompt`: the step's own, or the default that names the step.
pub data Prompt : Type 0 where
  custom : String → Prompt
  approve_step : String → Prompt

pub record WorkflowRun (V : Type 0) : Type 0 where
  pub id : String
  pub workflow : String
  pub status : RunStatus
  pub created_at : String
  pub state : Dict V
  pub attempts : List (StepAttempt V)
  pub approvals : List ApprovalRecord
  pub pending_step : Option String
  pub approval_prompt : Option Prompt
  pub error : Option RunError
  pub steps_executed : ℕ

-- What an awaited step function does: it returns its updates, or None, or it raises.
pub data Outcome (V : Type 0) : Type 0 where
  returned : Option (Dict V) → Outcome V
  raised : String → Outcome V

-- What ends a call of the engine: a KeyError or a NoProviderAvailableError of a branch function,
-- and any other exception, such as that of an unknown step.
pub data Crash : Type 0 where
  missing_key no_provider other_error : Crash

-- What a branch function does.
pub data Branch : Type 0 where
  chosen : Option String → Branch
  threw : Crash → Branch

pub data Next (V : Type 0) : Type 0 where
  end : Next V
  goto : String → Next V
  branch : (Dict V → Branch) → Next V

pub record Step (V W : Type 0) : Type 0 where
  pub name : String
  pub run : Dict V → W → Outcome V × W
  pub next : Next V
  pub max_attempts : ℕ
  pub retry_delay : ℕ
  pub requires_approval : Bool
  pub approval_prompt : Option String

pub record WorkflowDef (V W : Type 0) : Type 0 where
  pub name : String
  pub description : String
  pub steps : List (Step V W)

-- What the engine takes from the standard library: identifiers, the two clocks, and sleeping.
pub record Runtime (W : Type 0) : Type 0 where
  pub new_id : W → String × W
  pub utc_now : W → String
  pub monotonic_ms : W → ℕ
  pub sleep : ℕ → W → W

-- `x in names`
abbrev pub elem : String → List String → Bool
elem x = any (λ y. y == x)

unfoldable pub has_duplicates : List String → Bool
has_duplicates [] = false
has_duplicates (x ∷ xs) = elem x xs || has_duplicates xs

abbrev pub names : {V W : Type 0} → List (Step V W) → List String
names = map (λ s. s.name)

unfoldable pub next_is_known : {V W : Type 0} → List String → Step V W → Bool
next_is_known known s = elim s.next [ goto n ↦ elem n known | _ ↦ true ]

pub data DefError : Type 0 where
  no_steps duplicate_names : DefError
  unknown_next : String → DefError

-- `next((s for s in steps if not p(s)))`, the first step that the constructor refuses.
unfoldable pub first_unknown : {V W : Type 0} → List String → List (Step V W) → Option DefError
unfolding next_is_known
first_unknown known [] = none
first_unknown known (s ∷ ss) = elim (next_is_known known s) [
  | true ↦ first_unknown known ss
  | false ↦ some (unknown_next s.name)
]

-- `WorkflowDef.__post_init__`: `none` when the definition is accepted.
unfoldable pub post_init : {V W : Type 0} → WorkflowDef V W → Option DefError
unfolding has_duplicates first_unknown
post_init wf = elim wf.steps [
  | [] ↦ some no_steps
  | s ∷ ss ↦
      if has_duplicates (names (s ∷ ss))
      then some duplicate_names
      else first_unknown (names (s ∷ ss)) (s ∷ ss)
]

-- `WorkflowDef.step`; `none` is StopIteration.
unfoldable pub step_named : {V W : Type 0} → WorkflowDef V W → String → Option (Step V W)
step_named wf name = find (λ s. s.name == name) wf.steps

-- `WorkflowDef.entry`; `none` is IndexError.
unfoldable pub entry : {V W : Type 0} → WorkflowDef V W → Option String
entry wf = elim wf.steps [ [] ↦ none | s ∷ ss ↦ some s.name ]

unfoldable pub approval_gates : {V W : Type 0} → WorkflowDef V W → List String
approval_gates wf = names (keep (λ s. s.requires_approval) wf.steps)
