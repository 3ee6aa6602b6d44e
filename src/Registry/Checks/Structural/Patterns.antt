-- ===== src/Registry/Checks/Structural/Patterns.antt =====
-- `_RID_RE` and `_API_NAME_RE` of onto_platform/registry/checks/structural.py, over code points.
use Prim.Native.Char.{code}
use lingyunzhi_os_backend.Base.{
  ℕ, zero, suc, String, ◌≡◌, refl, Bool, true, false, ◌&&◌, ◌||◌, List, [], ◌∷◌, ◌<>◌, Option, none,
  some, leb, nat_eq, if◌then◌else◌,
}

abbrev pub codes : String → List ℕ
codes String.[] = []
codes (String.◌∷◌ c s) = code c ∷ codes s

abbrev pub is_lower : ℕ → Bool
is_lower c = leb b'a' c && leb c b'z'

abbrev pub is_digit : ℕ → Bool
is_digit c = leb b'0' c && leb c b'9'

-- `[a-z0-9]`
abbrev pub is_word : ℕ → Bool
is_word c = is_lower c || is_digit c

-- `[0-9a-fA-F]`
abbrev pub is_hex : ℕ → Bool
is_hex c = is_digit c || (leb b'a' c && leb c b'f') || (leb b'A' c && leb c b'F')

-- `$`: the end, or a newline that is the last character
abbrev pub at_end : List ℕ → Bool
at_end [] = true
at_end (c ∷ []) = nat_eq c 10
at_end (c ∷ d ∷ cs) = false

-- `([a-z0-9]|_)*$` after at least one letter, where each `_` has a word character on both sides;
-- the flag says that the last character was a word character.
unfoldable pub match_words : Bool → List ℕ → Bool
match_words word [] = word
match_words word (c ∷ cs) =
    let rest = match_words (is_word c) cs in
    if is_word c
    then rest
    else word && ((nat_eq c b'_' && rest) || (nat_eq c 10 && at_end (c ∷ cs)))

-- `_API_NAME_RE.match(s)` over code points
unfoldable pub match_name : List ℕ → Bool
unfolding match_words
match_name [] = false
match_name (c ∷ cs) = is_lower c && match_words true cs

unfoldable pub match_api_name : String → Bool
unfolding match_name
match_api_name s = match_name (codes s)

-- The rest after a prefix.
strip : List ℕ → List ℕ → Option (List ℕ)
strip [] cs = some cs
strip (p ∷ ps) [] = none
strip (p ∷ ps) (c ∷ cs) = if nat_eq p c then strip ps cs else none

-- Whether `n` hexadecimal digits and then `k` follow.
hexes : ℕ → (List ℕ → Bool) → List ℕ → Bool
hexes zero k cs = k cs
hexes (suc n) k [] = false
hexes (suc n) k (c ∷ cs) = is_hex c && hexes n k cs

dash : (List ℕ → Bool) → List ℕ → Bool
dash k [] = false
dash k (c ∷ cs) = nat_eq c b'-' && k cs

-- `[0-9a-fA-F]{8}-…{4}-…{4}-…{4}-…{12}$`
unfoldable pub match_uuid : List ℕ → Bool
unfolding hexes dash
match_uuid = hexes 8 (dash (hexes 4 (dash (hexes 4 (dash (hexes 4 (dash (hexes 12 at_end))))))))

uuid_after : Option (List ℕ) → Bool
uuid_after none = false
uuid_after (some cs) = match_uuid cs

-- The alternatives in their order: the first one that matches is captured.
first_kind : List String → List ℕ → Option String
unfolding strip uuid_after match_uuid
first_kind [] cs = none
first_kind (kind ∷ kinds) cs =
    if uuid_after (strip (codes ("ri." <> kind <> ".")) cs) then some kind else first_kind kinds cs

abbrev pub rid_kinds : List String
rid_kinds = "shprop" ∷ "prop" ∷ "iface" ∷ "obj" ∷ "link" ∷ "action" ∷ []

-- `_RID_RE.match(rid)`, with the captured kind
unfoldable pub match_rid : String → Option String
unfolding first_kind
match_rid rid = first_kind rid_kinds (codes rid)

match_api_name_tests :
    (match_api_name "a1_b2" ≡ true)
    × (match_api_name "a__b" ≡ false)
    × (match_api_name "a_" ≡ false)
    × (match_api_name "1a" ≡ false)
unfolding match_api_name
match_api_name_tests = (refl, refl, refl, refl)

match_rid_tests :
    (match_rid "ri.obj.00000000-0000-4000-8000-00000000000A" ≡ some "obj")
    × (match_rid "ri.obj.00000000-0000-4000-8000-00000000000" ≡ none)
    × (match_rid "ri.foo.00000000-0000-4000-8000-00000000000A" ≡ none)
unfolding match_rid
match_rid_tests = (refl, refl, refl)
