-- ===== src/Connections/SqlGate/Tests.antt =====
-- The gate over a parser that takes every text for one SELECT, and the theorem at a text.
use lingyunzhi_os_backend.Base.{
  ℕ, String, ◌≡◌, refl, true, false, ◌∷◌, [], List, Option, some, ok, contains, leb,
}
use lingyunzhi_os_backend.Connections.SqlGate.{
  Parser, is_instance_of, is_forbidden, accepted, rejected, is_blank, statements, sweep, check_ctes,
  is_body, is_root, check_with, check_root, check_statements, check_parsed, gate,
}
use lingyunzhi_os_backend.Connections.SqlGate.ReadOnly.{Passes, gate-accepted}

-- Unfolding this unfolds the gate.
unfoldable running : Unit {0}
unfolding contains is_instance_of is_forbidden is_blank statements sweep check_ctes is_body is_root
    check_with check_root check_statements check_parsed gate
running = tt

-- A node is what it selects; nodes above 100 stand for writes.
abbrev selects : Parser
selects = record {
  Node = ℕ;
  ParseError = String;
  parse = λ sql dialect. ok (some 1 ∷ []);
  is_select = λ n. true;
  is_union = λ n. false;
  is_with = λ n. false;
  is_subquery = λ n. false;
  is_instance = λ c n. leb 100 n;
  type_name = λ n. "INSERT";
  command_name = λ n. "";
  this = λ n. n;
  expressions = λ n. [];
  walk = λ n. n ∷ 2 ∷ [];
}

passes : gate selects (b'q' ∷ []) "postgres" ≡ accepted
unfolding running
passes = refl

blank_refused : gate selects (b' ' ∷ 9 ∷ []) "postgres" ≡ rejected "PARSE_ERROR"
unfolding running
blank_refused = refl

gate-accepted_example :
    (root : ℕ) × (parsed : List (Option ℕ)) × (selects.parse (b'q' ∷ []) "postgres" ≡ ok parsed)
    × (statements parsed ≡ root ∷ [])
    × Passes selects root
gate-accepted_example = gate-accepted selects (b'q' ∷ []) "postgres" passes
