-- ===== src/SqlGuard.antt =====
-- platform/capabilities, workbench_capabilities/sql_guard.py: the guard of read-only queries.
-- sqlglot is outside of the model: its parser and printer are arguments, and a tree is what the
-- guard asks of it. A literal bound is a number.
pub mod ReadOnly
mod Tests
use ai_agents_enterprise.Prelude.{
  ℕ, zero, suc, String, Bool, true, false, not, ◌&&◌, ◌||◌, Option, none, some, List, [], ◌∷◌, map,
  any, all, ◌==◌, ltb, leb, if◌then◌else◌,
}

-- The classes of nodes that the guard tells apart.
pub data Node : Type 0 where
  select union insert update delete drop create alter merge truncate_table grant command set
        transaction other :
      Node

pub data Bound : Type 0 where
  literal : ℕ → Bound
  expression : Bound

pub record Tree : Type 0 where
  pub root : Node
  pub walk : List Node
  pub anonymous : List String
  pub ctes : List String
  pub tables : List String
  pub offset : Option Bound
  pub limit : Option Bound

abbrev pub max_rows : ℕ
max_rows = 200

abbrev pub max_offset : ℕ
max_offset = 100000

abbrev pub is_forbidden_node : Node → Bool
is_forbidden_node select = false
is_forbidden_node union = false
is_forbidden_node other = false
is_forbidden_node _ = true

abbrev pub is_query : Node → Bool
is_query select = true
is_query union = true
is_query _ = false

abbrev pub forbidden_functions : List String
forbidden_functions =
    "load_extension" ∷ "writefile" ∷ "readfile" ∷ "pg_read_file" ∷ "pg_read_binary_file"
    ∷ "pg_ls_dir" ∷ "lo_import" ∷ "lo_export" ∷ "dblink" ∷ []

abbrev pub is_in : String → List String → Bool
is_in t ts = any (λ u. u == t) ts

-- SqlGuardError, by its text.
pub data SqlGuardError : Type 0 where
  does_not_parse not_one_statement not_a_select forbidden_operation forbidden_function
        table_not_allowed offset_too_large :
      SqlGuardError

pub data Validated : Type 0 where
  accepted : Tree → (sql : String) → Validated
  rejected : SqlGuardError → Validated

-- `[s for s in statements if s is not None]`
abbrev pub present : List (Option Tree) → List Tree
present [] = []
present (none ∷ ss) = present ss
present (some s ∷ ss) = s ∷ present ss

abbrev pub is_large_offset : Option Bound → Bool
is_large_offset none = false
is_large_offset (some expression) = true
is_large_offset (some (literal n)) = ltb max_offset n

abbrev pub is_loose_limit : Option Bound → Bool
is_loose_limit none = true
is_loose_limit (some expression) = true
is_loose_limit (some (literal n)) = ltb max_rows n

-- `tree.limit(MAX_ROWS)` where the limit is missing or too large.
unfoldable pub enforce_limit : Tree → Tree
enforce_limit tree =
    if is_loose_limit tree.limit then record tree { limit = some (literal max_rows) } else tree

module _ (lower : String → String) where
  abbrev pub is_forbidden_function : String → Bool
  is_forbidden_function f = not (f == "") && is_in (lower f) forbidden_functions

  abbrev pub is_allowed_table : (allowed ctes : List String) → String → Bool
  is_allowed_table allowed ctes t =
      (lower t == "") || is_in (lower t) (map lower allowed) || is_in (lower t) (map lower ctes)

module _ (lower : String → String) (parse : String → Option (List (Option Tree)))
    (print : Tree → String) where
  -- The checks on the one statement, in their order.
  unfoldable pub check_tree : (allowed : List String) → Tree → Validated
  check_tree allowed tree =
      if not (is_query tree.root)
      then rejected not_a_select
      else if any is_forbidden_node tree.walk
      then rejected forbidden_operation
      else if any (is_forbidden_function lower) tree.anonymous
      then rejected forbidden_function
      else if not (all (is_allowed_table lower allowed tree.ctes) tree.tables)
      then rejected table_not_allowed
      else if is_large_offset tree.offset
      then rejected offset_too_large
      else accepted (enforce_limit tree) (print (enforce_limit tree))

  abbrev pub check_statements : (allowed : List String) → List Tree → Validated
  check_statements allowed (tree ∷ []) = check_tree allowed tree
  check_statements allowed _ = rejected not_one_statement

  unfoldable pub validate_sql : (sql : String) → (allowed : List String) → Validated
  validate_sql sql allowed = elim (parse sql) [
    | none ↦ rejected does_not_parse
    | some statements ↦ check_statements allowed (present statements)
  ]
