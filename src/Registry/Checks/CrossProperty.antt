-- ===== src/Registry/Checks/CrossProperty.antt =====
-- onto_platform/registry/checks/cross_property.py
use Prim.Native.Char.{Char, code}
use lingyunzhi_os_backend.Base.{
  ℕ, ◌+◌, String, ◌≡◌, refl, Bool, not, ◌&&◌, ◌||◌, List, [], ◌∷◌, ◌++◌, ◌<>◌, Option, none, some,
  leb, nat_eq, truthy, contains, for_each, only_if, if◌then◌else◌,
}
use lingyunzhi_os_backend.Dict.{Dict}
use lingyunzhi_os_backend.ProtoModels.{
  PropertyTypeDefinition, CrossPropertyExpression, EntityValidationRule, EntityValidationConfig,
  OntologyRegistry,
}
use lingyunzhi_os_backend.Registry.Findings.{
  Finding, ValidatorCtx, error, does_not_resolve, text, texts,
}
use lingyunzhi_os_backend.Registry.Checks.Paths.{at_key, decimal, sorted_set}

abbrev is_lower : ℕ → Bool
is_lower c = leb b'a' c && leb c b'z'

abbrev is_name_char : ℕ → Bool
is_name_char c = is_lower c || (leb b'0' c && leb c b'9') || nat_eq c b'_'

-- How much of `\{([a-z][a-z0-9_]*)\}` has been matched. No character of a name opens a brace, so
-- where a match fails the next one begins at or after the character that failed.
pub data Scan : Type 0 where
  outside opened : Scan
  in_name : String → Scan

next : Scan → Char → Scan
next outside c = if nat_eq (code c) b'{' then opened else outside
next opened c =
    if nat_eq (code c) b'{'
    then opened
    else if is_lower (code c)
    then in_name (String.◌∷◌ c "")
    else outside
next (in_name acc) c =
    if nat_eq (code c) b'{'
    then opened
    else if is_name_char (code c)
    then in_name (acc <> String.◌∷◌ c "")
    else outside

emit : Scan → Char → List String
emit (in_name acc) c = only_if (nat_eq (code c) b'}') acc
emit _ c = []

unfoldable pub scan : Scan → String → List String
unfolding next emit
scan st String.[] = []
scan st (String.◌∷◌ c s) = emit st c ++ scan (next st c) s

-- `_REF_RE.findall(expr)`
unfoldable pub find_refs : String → List String
unfolding scan
find_refs = scan outside

-- `{pt.api_name for pt in entity.property_types.values() if pt.api_name}`
unfoldable pub api_names : Dict PropertyTypeDefinition → List String
api_names [] = []
api_names ((k, pt) ∷ pts) =
    if truthy pt.api_name then pt.api_name ∷ api_names pts else api_names pts

-- The findings of one rule; `i` is its place.
unfoldable pub check_rule : List String → String → ℕ → Option CrossPropertyExpression → List Finding
check_rule names base i none = []
check_rule names base i (some cp) = for_each (find_refs cp.expression) (λ ref.
    only_if (not (contains ref names)) (record {
      severity = error;
      code = "CROSS_PROPERTY_UNRESOLVED";
      path = base <> at_key ".validation.rules" (decimal i) <> ".cross_property.expression";
      message = does_not_resolve ref;
      details = ("reference", text ref) ∷ ("available", texts (sorted_set names)) ∷ [];
    }))

-- `for i, rule in enumerate(rules)`, from place `i`
unfoldable pub check_rules : List String → String → ℕ → List EntityValidationRule → List Finding
check_rules names base i [] = []
check_rules names base i (rule ∷ rules) =
    check_rule names base i rule.cross_property ++ check_rules names base (i + 1) rules

-- `_check_entity`
unfoldable pub check_entity :
    Dict PropertyTypeDefinition → EntityValidationConfig → String → List Finding
check_entity property_types validation base =
    check_rules (api_names property_types) base 0 validation.rules

unfoldable pub check_cross_property : OntologyRegistry → ValidatorCtx → List Finding
check_cross_property registry ctx =
    for_each registry.object_types
      (λ (rid, obj). check_entity obj.property_types obj.validation (at_key "object_types" rid))
    ++ for_each registry.link_types
        (λ (rid, lt). check_entity lt.property_types lt.validation (at_key "link_types" rid))

find_refs_example : find_refs "{a} + {{b_1} > {9} {C} {d" ≡ "a" ∷ "b_1" ∷ []
unfolding find_refs
find_refs_example = refl
