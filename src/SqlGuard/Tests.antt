-- ===== src/SqlGuard/Tests.antt =====
-- A parser that knows one query, and the theorem at it.
use ai_agents_enterprise.Prelude.{String, ◌≡◌, refl, Option, none, some, List, [], ◌∷◌}
use ai_agents_enterprise.SqlGuard.{
  select, other, literal, Tree, present, accepted, enforce_limit, check_tree, validate_sql,
}
use ai_agents_enterprise.SqlGuard.ReadOnly.{ReadOnly, validate_sql-ReadOnly}

abbrev orders : Tree
orders = record {
  root = select;
  walk = select ∷ other ∷ [];
  anonymous = [];
  ctes = [];
  tables = "orders" ∷ [];
  offset = none;
  limit = some (literal 5000);
}

abbrev limited : Tree
limited = record orders { limit = some (literal 200) }

abbrev parse : String → Option (List (Option Tree))
parse sql = some (some orders ∷ none ∷ [])

abbrev print : Tree → String
print tree = "SELECT * FROM orders LIMIT 200"

accepts-orders :
    validate_sql (λ t. t) parse print "SELECT * FROM orders LIMIT 5000;" ("orders" ∷ [])
    ≡ accepted limited "SELECT * FROM orders LIMIT 200"
unfolding validate_sql check_tree enforce_limit
accepts-orders = refl

validate_sql-ReadOnly_example :
    (statements : List (Option Tree)) × (parsed : Tree) × (parse "SELECT * FROM orders LIMIT 5000;"
      ≡ some statements)
    × (present statements ≡ parsed ∷ [])
    × ReadOnly (λ t. t) parse print ("orders" ∷ []) parsed limited "SELECT * FROM orders LIMIT 200"
validate_sql-ReadOnly_example =
    validate_sql-ReadOnly (λ t. t) parse print "SELECT * FROM orders LIMIT 5000;"
      "SELECT * FROM orders LIMIT 200" ("orders" ∷ []) limited accepts-orders
