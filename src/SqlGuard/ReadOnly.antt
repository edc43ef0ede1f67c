-- ===== src/SqlGuard/ReadOnly.antt =====
-- What an accepted query is.
use ai_agents_enterprise.Prelude.{
  ℕ, ◌≤◌, String, ◌≡◌, refl, ap, true, false, Option, none, some, Option-cases, Bool-cases, List,
  [], ◌∷◌, any, all, ltb, inl, inr, arith,
}
use ai_agents_enterprise.SqlGuard.{
  Bound, literal, expression, Tree, max_rows, max_offset, is_forbidden_node, is_query,
  is_large_offset, is_loose_limit, enforce_limit, Validated, accepted, rejected, SqlGuardError,
  present, is_forbidden_function, is_allowed_table, check_tree, check_statements, validate_sql,
}

abbrev pub IsBounded : ℕ → Option Bound → Type 0
IsBounded most none = Unit
IsBounded most (some expression) = ⊥
IsBounded most (some (literal n)) = n ≤ most

-- The limit that a query is run with.
abbrev pub IsLimited : Option Bound → Type 0
IsLimited limit = (n : ℕ) × (limit ≡ some (literal n)) × (n ≤ max_rows)

enforce_limit-IsLimited :
    (limit : Option Bound) (tree : Tree) → tree.limit ≡ limit → IsLimited (enforce_limit tree).limit
unfolding enforce_limit
enforce_limit-IsLimited none tree e = rw (enforce_limit, e) (max_rows, refl, omega arith)
enforce_limit-IsLimited (some expression) tree e =
    rw (enforce_limit, e) (max_rows, refl, omega arith)
enforce_limit-IsLimited (some (literal n)) tree e = elim (Bool-cases (ltb max_rows n)) [
  | inl large ↦ rw (enforce_limit, e, large) (max_rows, refl, omega arith)
  | inr small ↦ rw (enforce_limit, e, small) (n, refl, ground arith)
]

not_large-IsBounded :
    (offset : Option Bound) → is_large_offset offset ≡ false → IsBounded max_offset offset
not_large-IsBounded none e = tt
not_large-IsBounded (some expression) e = cc
not_large-IsBounded (some (literal n)) e = ground arith

tree_of : Tree → Validated → Tree
tree_of t (accepted tree sql) = tree
tree_of t (rejected why) = t

text_of : Validated → String
text_of (accepted tree sql) = sql
text_of (rejected why) = ""

rejected_ne :
    {why : SqlGuardError} {tree : Tree} {text : String} → rejected why ≡ accepted tree text → ⊥
rejected_ne e = cc

enforce_limit-same :
    (tree : Tree) → enforce_limit tree ≡ record tree { limit = (enforce_limit tree).limit }
unfolding enforce_limit
enforce_limit-same tree = elim (Bool-cases (is_loose_limit tree.limit)) [
  | inl e ↦ rw (enforce_limit, e)
  | inr e ↦ rw (enforce_limit, e)
]

module _ (lower : String → String) (parse : String → Option (List (Option Tree)))
    (print : Tree → String) where
  -- The tree and the text that are accepted for a parsed tree.
  pub record ReadOnly (allowed : List String) (parsed tree : Tree) (text : String) : Type 0 where
    pub query : is_query parsed.root ≡ true
    pub no_write : any is_forbidden_node parsed.walk ≡ false
    pub functions : any (is_forbidden_function lower) parsed.anonymous ≡ false
    pub tables : all (is_allowed_table lower allowed parsed.ctes) parsed.tables ≡ true
    pub offset : IsBounded max_offset parsed.offset
    pub limited : IsLimited tree.limit
    pub same : tree ≡ record parsed { limit = tree.limit }
    pub printed : text ≡ print tree

  check_tree-ReadOnly :
      (allowed : List String) (parsed tree : Tree) (text : String)
      → check_tree lower parse print allowed parsed ≡ accepted tree text
      → ReadOnly allowed parsed tree text
  unfolding check_tree enforce_limit tree_of text_of
  check_tree-ReadOnly allowed parsed tree text e = elim (Bool-cases (is_query parsed.root)) [
    | inr p ↦ absurd (rejected_ne (rw (check_tree, p) at e))
    | inl p ↦ elim (Bool-cases (any is_forbidden_node parsed.walk)) [
      | inl q ↦ absurd (rejected_ne (rw (check_tree, p, q) at e))
      | inr q ↦ elim (Bool-cases (any (is_forbidden_function lower) parsed.anonymous)) [
        | inl r ↦ absurd (rejected_ne (rw (check_tree, p, q, r) at e))
        | inr r ↦
            elim (Bool-cases (all (is_allowed_table lower allowed parsed.ctes) parsed.tables)) [
              | inr s ↦ absurd (rejected_ne (rw (check_tree, p, q, r, s) at e))
              | inl s ↦ elim (Bool-cases (is_large_offset parsed.offset)) [
                | inl o ↦ absurd (rejected_ne (rw (check_tree, p, q, r, s, o) at e))
                | inr o ↦
                    let done = rw (check_tree, p, q, r, s, o) at e in
                    let tree_eq : enforce_limit parsed ≡ tree = ap (tree_of tree) done in
                    let text_eq : print (enforce_limit parsed) ≡ text = ap text_of done in
                    rw (← text_eq, ← tree_eq)
                      (record {
                        query = p;
                        no_write = q;
                        functions = r;
                        tables = s;
                        offset = not_large-IsBounded parsed.offset o;
                        limited = enforce_limit-IsLimited parsed.limit parsed refl;
                        same = enforce_limit-same parsed;
                        printed = refl;
                      })
              ]
            ]
      ]
    ]
  ]

  check_statements-ReadOnly :
      (allowed : List String) (trees : List Tree) (tree : Tree) (text : String)
      → check_statements lower parse print allowed trees ≡ accepted tree text
      → (parsed : Tree) × (trees ≡ parsed ∷ []) × ReadOnly allowed parsed tree text
  check_statements-ReadOnly allowed [] tree text e = cc
  check_statements-ReadOnly allowed (parsed ∷ []) tree text e =
      (parsed, refl, check_tree-ReadOnly allowed parsed tree text e)
  check_statements-ReadOnly allowed (parsed ∷ t ∷ ts) tree text e = cc

  -- A query is accepted only if it parses to exactly one statement, and that one is a SELECT or
  -- UNION without any writing or administrative node, without a forbidden function, and over tables
  -- that are allowed or its own CTEs, with an offset of at most 100000, if any. What is accepted is
  -- that statement with a literal limit of at most 200, and nothing else changed, printed.
  pub validate_sql-ReadOnly :
      (sql text : String) (allowed : List String) (tree : Tree)
      → validate_sql lower parse print sql allowed ≡ accepted tree text
      → (statements : List (Option Tree)) × (parsed : Tree) × (parse sql ≡ some statements)
        × (present statements ≡ parsed ∷ [])
        × ReadOnly allowed parsed tree text
  unfolding validate_sql
  validate_sql-ReadOnly sql text allowed tree e = elim (Option-cases (parse sql)) [
    | inl p ↦ absurd (rejected_ne (rw (validate_sql, p) at e))
    | inr (statements, p) ↦
        let (parsed, one, h) =
          check_statements-ReadOnly allowed (present statements) tree text
            (rw (validate_sql, p) at e) in
        (statements, parsed, p, one, h)
  ]
