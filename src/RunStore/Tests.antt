-- ===== src/RunStore/Tests.antt =====
-- The theorems of the run store at the table in memory. A payload is a number here.
use ai_agents_enterprise.Prelude.{ℕ, ◌≤◌, ◌≡◌, refl, none, some, List, [], ◌∷◌, arith}
use ai_agents_enterprise.RunStore.Database.{AgentRun, Database, clashes, HasDistinctIds}
use ai_agents_enterprise.RunStore.Memory.{table_of, answers_updates, answers_selects}
use ai_agents_enterprise.RunStore.Operations.{
  reraised, create_run, claim_run, sweep_stuck_runs, claimable,
}
use ai_agents_enterprise.RunStore.Claims.{
  AnswersUpdates, Claimed, claim_run-Claimed, claims, claims-le-one,
}
use ai_agents_enterprise.RunStore.Creation.{
  AnswersSelects, new_row, create_run-idempotent, create_run-empty_key, Swept,
  sweep_stuck_runs-Swept,
}

abbrev Row : Type 0
Row = AgentRun ℕ

abbrev table : Database ℕ
table = table_of ℕ

updates : AnswersUpdates table
updates = answers_updates ℕ

selects : AnswersSelects table
selects = answers_selects ℕ

-- One run is pending since time 0, the other one runs.
abbrev first : Row
first = new_row 0 "a" "autonomous" "pending" 7 (some "k")

abbrev second : Row
second = new_row 5 "b" "autonomous" "running" 8 none

abbrev two : List Row
two = first ∷ second ∷ []

two-HasDistinctIds : HasDistinctIds two
two-HasDistinctIds = (refl, (refl, tt))

-- Of three deliveries of the pending run the first wins.
three_deliveries : claims table "a" 900 (10 ∷ 20 ∷ 900000010 ∷ []) two ≡ 1
unfolding claims claim_run claimable
three_deliveries = refl

claim_run-Claimed_example : Claimed table 10 "a" 900 two (claim_run table 10 "a" 900 two)
claim_run-Claimed_example = claim_run-Claimed table 10 "a" 900 two updates two-HasDistinctIds

claims-le-one_example : claims table "a" 900 (10 ∷ 20 ∷ 900000010 ∷ []) two ≤ 1
claims-le-one_example =
    claims-le-one table "a" 900 10 (10 ∷ 20 ∷ 900000010 ∷ []) two updates two-HasDistinctIds
      (omega arith)

create_run-idempotent_example :
    create_run table 9 "c" "autonomous" "pending" 3 (some "k") (first ∷ [])
    ≡ ((create_run table 0 "a" "autonomous" "pending" 7 (some "k") []).0, first ∷ [])
create_run-idempotent_example =
    create_run-idempotent table 0 9 "a" "c" "autonomous" "pending" "pending" "k" 7 3 [] (first ∷ [])
      selects refl refl (unfold clashes in refl)

abbrev unkeyed : List Row
unkeyed = new_row 0 "a" "autonomous" "pending" 7 (some "") ∷ []

create_run-empty_key_example :
    create_run table 9 "c" "autonomous" "pending" 3 (some "") unkeyed ≡ (reraised, unkeyed)
create_run-empty_key_example =
    create_run-empty_key table 9 "c" "autonomous" "pending" 3 unkeyed selects refl
      (unfold clashes in refl)

sweep_stuck_runs-Swept_example : Swept table 2000010 1 two (sweep_stuck_runs table 2000010 1 two)
sweep_stuck_runs-Swept_example = sweep_stuck_runs-Swept table 2000010 1 two updates
