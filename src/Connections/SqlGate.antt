-- ===== src/Connections/SqlGate.antt =====
-- `gate` of onto_platform/connections/sql_gate.py. A query is the list of its code points. What the
-- gate asks of the parser sqlglot is a record that it takes as a parameter. The detail that goes with
-- the reason of a rejection is left out.
pub mod ReadOnly
mod Tests
use lingyunzhi_os_backend.Base.{
  ℕ, String, Bool, true, false, not, ◌&&◌, ◌||◌, List, [], ◌∷◌, Option, none, some, Result, ok, err,
  ◌<>◌, leb, nat_eq, contains, if◌then◌else◌,
}

-- The classes `exp.Insert`, `exp.Update`, … of nodes that write.
pub data WriteNode : Type 0 where
  insert update delete merge command create drop alter : WriteNode

-- `sqlglot.parse`, which may raise, the tests `isinstance(node, exp.…)`, the type's name and `this` of
-- a command in upper case, and the nodes below a node with itself.
pub record Parser : Type 1 where
  pub Node : Type 0
  pub ParseError : Type 0
  pub parse : List ℕ → String → Result ParseError (List (Option Node))
  pub is_select : Node → Bool
  pub is_union : Node → Bool
  pub is_with : Node → Bool
  pub is_subquery : Node → Bool
  pub is_instance : WriteNode → Node → Bool
  pub type_name : Node → String
  pub command_name : Node → String
  pub this : Node → Node
  pub expressions : Node → List Node
  pub walk : Node → List Node

pub data GateResult : Type 0 where
  accepted : GateResult
  rejected : String → GateResult

-- `_FORBIDDEN`
abbrev pub forbidden_nodes : List WriteNode
forbidden_nodes = insert ∷ update ∷ delete ∷ merge ∷ command ∷ create ∷ drop ∷ alter ∷ []

-- `_FORBIDDEN_COMMAND_NAMES`
abbrev pub forbidden_command_names : List String
forbidden_command_names =
    "TRUNCATE" ∷ "GRANT" ∷ "REVOKE" ∷ "COPY" ∷ "LOAD" ∷ "LOCK" ∷ "RENAME" ∷ "CALL" ∷ "SET" ∷ "ALTER"
    ∷ "CREATE" ∷ "DROP" ∷ []

abbrev between : ℕ → ℕ → ℕ → Bool
between low high c = leb low c && leb c high

-- The code points that `strip` takes off.
abbrev is_space : ℕ → Bool
is_space c =
    between 9 13 c
    || between 28 32 c
    || nat_eq c 133
    || nat_eq c 160
    || nat_eq c 5760
    || between 8192 8202 c
    || between 8232 8233 c
    || nat_eq c 8239
    || nat_eq c 8287
    || nat_eq c 12288

-- `not sql or not sql.strip()`
unfoldable pub is_blank : List ℕ → Bool
is_blank [] = true
is_blank (c ∷ cs) = is_space c && is_blank cs

-- `[s for s in parsed if s is not None]`
unfoldable pub statements {ℓ} : {A : Type ℓ} → List (Option A) → List A
statements [] = []
statements (none ∷ ss) = statements ss
statements (some s ∷ ss) = s ∷ statements ss

module _ (sql_parser : Parser) where
  -- `isinstance(node, classes)` for a tuple of classes
  unfoldable pub is_instance_of : List WriteNode → sql_parser.Node → Bool
  is_instance_of [] node = false
  is_instance_of (c ∷ cs) node = sql_parser.is_instance c node || is_instance_of cs node

  unfoldable pub is_forbidden : sql_parser.Node → Bool
  is_forbidden node = is_instance_of forbidden_nodes node

  abbrev write_node : sql_parser.Node → GateResult
  write_node node = rejected ("WRITE_NODE_" <> sql_parser.type_name node)

  -- The loop over `root.walk()`
  unfoldable pub sweep : List sql_parser.Node → GateResult
  sweep [] = accepted
  sweep (node ∷ nodes) =
      let rest = sweep nodes in
      if is_forbidden node
      then write_node node
      else if sql_parser.is_instance command node
          && contains (sql_parser.command_name node) forbidden_command_names
      then rejected ("WRITE_NODE_" <> sql_parser.command_name node)
      else rest

  -- The loop over the definitions of WITH, and what comes after it.
  unfoldable pub check_ctes : List sql_parser.Node → GateResult → GateResult
  check_ctes [] after = after
  check_ctes (cte ∷ ctes) after =
      let rest = check_ctes ctes after in
      if is_forbidden (sql_parser.this cte) then write_node (sql_parser.this cte) else rest

  unfoldable pub is_body : sql_parser.Node → Bool
  is_body node = sql_parser.is_select node || sql_parser.is_union node

  unfoldable pub is_root : sql_parser.Node → Bool
  is_root node = is_body node || sql_parser.is_with node || sql_parser.is_subquery node

  unfoldable pub check_with : sql_parser.Node → GateResult
  check_with root =
      if not (is_body (sql_parser.this root))
      then rejected "NOT_SELECT"
      else check_ctes (sql_parser.expressions root) (sweep (sql_parser.walk root))

  unfoldable pub check_root : sql_parser.Node → GateResult
  check_root root =
      if not (is_root root)
      then rejected "NOT_SELECT"
      else if sql_parser.is_with root
      then check_with root
      else sweep (sql_parser.walk root)

  unfoldable pub check_statements : List sql_parser.Node → GateResult
  check_statements [] = rejected "MULTIPLE_STATEMENTS"
  check_statements (root ∷ []) = check_root root
  check_statements (root ∷ other ∷ others) = rejected "MULTIPLE_STATEMENTS"

  unfoldable pub check_parsed :
      Result sql_parser.ParseError (List (Option sql_parser.Node)) → GateResult
  check_parsed (err e) = rejected "PARSE_ERROR"
  check_parsed (ok parsed) = check_statements (statements parsed)

  unfoldable pub gate : List ℕ → String → GateResult
  gate sql dialect =
      if is_blank sql then rejected "PARSE_ERROR" else check_parsed (sql_parser.parse sql dialect)
