-- ===== src/Connections/SqlGate/ReadOnly.antt =====
-- What passes the gate of onto_platform/connections/sql_gate.py.
use lingyunzhi_os_backend.Base.{
  ℕ, String, ◌≡◌, refl, Bool, true, false, not, ◌||◌, List, [], ◌∷◌, Option, Result, ok, err,
  if◌then◌else◌,
}
use mathlib.Core.List.{Memᴰ}
use lingyunzhi_os_backend.Connections.SqlGate.{
  WriteNode, insert, update, delete, merge, command, create, drop, alter, Parser, forbidden_nodes,
  is_instance_of, is_forbidden, GateResult, accepted, rejected, is_blank, statements, sweep,
  check_ctes, is_body, is_root, check_with, check_root, check_statements, check_parsed, gate,
}

-- A rejection under a test was not made when the result is acceptance.
not_rejected :
    (b : Bool) (reason : String) (rest : GateResult)
    → (if b then rejected reason else rest) ≡ accepted
    → (b ≡ false) × (rest ≡ accepted)
not_rejected true reason rest h = absurd cc
not_rejected false reason rest h = (refl, h)

not-false : (b : Bool) → not b ≡ false → b ≡ true
not-false true h = refl
not-false false h = absurd cc

or_false : (a b : Bool) → (a || b) ≡ false → (a ≡ false) × (b ≡ false)
or_false true b h = absurd cc
or_false false b h = (refl, h)

-- Every class of nodes that write is in the tuple.
all_forbidden : (c : WriteNode) → Memᴰ c forbidden_nodes
all_forbidden insert = Memᴰ.head refl
all_forbidden update = Memᴰ.tail (Memᴰ.head refl)
all_forbidden delete = Memᴰ.tail (Memᴰ.tail (Memᴰ.head refl))
all_forbidden merge = Memᴰ.tail (Memᴰ.tail (Memᴰ.tail (Memᴰ.head refl)))
all_forbidden command = Memᴰ.tail (Memᴰ.tail (Memᴰ.tail (Memᴰ.tail (Memᴰ.head refl))))
all_forbidden create = Memᴰ.tail (Memᴰ.tail (Memᴰ.tail (Memᴰ.tail (Memᴰ.tail (Memᴰ.head refl)))))
all_forbidden drop =
    Memᴰ.tail (Memᴰ.tail (Memᴰ.tail (Memᴰ.tail (Memᴰ.tail (Memᴰ.tail (Memᴰ.head refl))))))
all_forbidden alter =
    Memᴰ.tail
      (Memᴰ.tail (Memᴰ.tail (Memᴰ.tail (Memᴰ.tail (Memᴰ.tail (Memᴰ.tail (Memᴰ.head refl)))))))

module _ (sql_parser : Parser) where
  -- No node is of any of the classes of nodes that write.
  abbrev pub Harmless : List sql_parser.Node → Type 0
  Harmless nodes =
      (node : sql_parser.Node) (c : WriteNode)
      → Memᴰ node nodes
      → sql_parser.is_instance c node ≡ false

  is_instance_of-mem :
      (cs : List WriteNode) (node : sql_parser.Node) (c : WriteNode)
      → is_instance_of sql_parser cs node ≡ false
      → Memᴰ c cs
      → sql_parser.is_instance c node ≡ false
  unfolding is_instance_of
  is_instance_of-mem [] node c h m = elim m [ ]
  is_instance_of-mem (d ∷ cs) node c h (Memᴰ.head e) =
      rw e ((or_false (sql_parser.is_instance d node) _ h).0)
  is_instance_of-mem (d ∷ cs) node c h (Memᴰ.tail m) =
      is_instance_of-mem cs node c ((or_false (sql_parser.is_instance d node) _ h).1) m

  not_forbidden :
      (node : sql_parser.Node) (c : WriteNode)
      → is_forbidden sql_parser node ≡ false
      → sql_parser.is_instance c node ≡ false
  unfolding is_forbidden
  not_forbidden node c h = is_instance_of-mem forbidden_nodes node c h (all_forbidden c)

  sweep-Harmless :
      (nodes : List sql_parser.Node) → sweep sql_parser nodes ≡ accepted → Harmless nodes
  unfolding sweep
  sweep-Harmless [] h node c m = elim m [ ]
  sweep-Harmless (n ∷ nodes) h node c (Memᴰ.head e) =
      rw e (not_forbidden n c ((not_rejected (is_forbidden sql_parser n) _ _ h).0))
  sweep-Harmless (n ∷ nodes) h node c (Memᴰ.tail m) =
      sweep-Harmless nodes
        ((not_rejected _ _ _ ((not_rejected (is_forbidden sql_parser n) _ _ h).1)).1) node c m

  check_ctes_passed :
      (ctes : List sql_parser.Node) (after : GateResult)
      → check_ctes sql_parser ctes after ≡ accepted
      → after ≡ accepted
  unfolding check_ctes
  check_ctes_passed [] after h = h
  check_ctes_passed (cte ∷ ctes) after h =
      check_ctes_passed ctes after
        ((not_rejected (is_forbidden sql_parser (sql_parser.this cte)) _ _ h).1)

  check_with-Harmless :
      (root : sql_parser.Node)
      → check_with sql_parser root ≡ accepted
      → (is_body sql_parser (sql_parser.this root) ≡ true) × Harmless (sql_parser.walk root)
  unfolding check_with
  check_with-Harmless root h =
      let (body, rest) = not_rejected (not (is_body sql_parser (sql_parser.this root))) _ _ h in
      (
        not-false (is_body sql_parser (sql_parser.this root)) body,
        sweep-Harmless (sql_parser.walk root)
            (check_ctes_passed (sql_parser.expressions root) _ rest),
      )

  -- The root of a query that passes.
  abbrev pub Passes : sql_parser.Node → Type 0
  Passes root =
      (is_root sql_parser root ≡ true)
      × (sql_parser.is_with root ≡ true → is_body sql_parser (sql_parser.this root) ≡ true)
      × Harmless (sql_parser.walk root)

  after_root :
      (root : sql_parser.Node) (b : Bool)
      → sql_parser.is_with root ≡ b
      → (if b then check_with sql_parser root else sweep sql_parser (sql_parser.walk root))
        ≡ accepted
      → (sql_parser.is_with root ≡ true → is_body sql_parser (sql_parser.this root) ≡ true)
        × Harmless (sql_parser.walk root)
  after_root root true e h =
      let (body, harmless) = check_with-Harmless root h in ((λ i. body), harmless)
  after_root root false e h = ((λ i. absurd cc), sweep-Harmless (sql_parser.walk root) h)

  check_root-Passes : (root : sql_parser.Node) → check_root sql_parser root ≡ accepted → Passes root
  unfolding check_root
  check_root-Passes root h =
      let (root_shape, rest) = not_rejected (not (is_root sql_parser root)) _ _ h in
      let (body, harmless) = after_root root (sql_parser.is_with root) refl rest in
      (not-false (is_root sql_parser root) root_shape, body, harmless)

  abbrev Parses : Result sql_parser.ParseError (List (Option sql_parser.Node)) → Type 0
  Parses r =
      (root : sql_parser.Node) × (parsed : List (Option sql_parser.Node)) × (r ≡ ok parsed)
      × (statements parsed ≡ root ∷ [])
      × Passes root

  check_statements-Passes :
      (ss : List sql_parser.Node)
      → check_statements sql_parser ss ≡ accepted
      → (root : sql_parser.Node) × (ss ≡ root ∷ []) × Passes root
  unfolding check_statements
  check_statements-Passes [] h = absurd cc
  check_statements-Passes (root ∷ []) h = (root, refl, check_root-Passes root h)
  check_statements-Passes (root ∷ other ∷ others) h = absurd cc

  check_parsed-Parses :
      (r : Result sql_parser.ParseError (List (Option sql_parser.Node)))
      → check_parsed sql_parser r ≡ accepted
      → Parses r
  unfolding check_parsed
  check_parsed-Parses (err e) h = absurd cc
  check_parsed-Parses (ok parsed) h =
      let (root, single, passes) = check_statements-Passes (statements parsed) h in
      (root, parsed, refl, single, passes)

  -- A query passes only if it parses to a single statement that is a SELECT, UNION, WITH or subquery,
  -- where WITH ends in a SELECT or UNION, and no node of its tree is an INSERT, UPDATE, DELETE, MERGE,
  -- CREATE, DROP, ALTER or any other command that sqlglot does not parse further.
  pub gate-accepted :
      (sql : List ℕ) (dialect : String)
      → gate sql_parser sql dialect ≡ accepted
      → (root : sql_parser.Node) × (parsed : List (Option sql_parser.Node)) × (sql_parser.parse sql
            dialect
          ≡ ok parsed)
        × (statements parsed ≡ root ∷ [])
        × Passes root
  unfolding gate
  gate-accepted sql dialect h =
      check_parsed-Parses (sql_parser.parse sql dialect) ((not_rejected (is_blank sql) _ _ h).1)
