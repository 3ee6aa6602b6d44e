-- ===== src/Registry/Checks/Paths.antt =====
-- The path texts of the checkers in onto_platform/registry/checks, and the sorting of names.
use Prim.Native.Nat.{◌/◌, ◌%◌}
use Prim.Native.String.{slice, compare}
use text.Mathlib.Text.{is_lt}
use lingyunzhi_os_backend.Base.{
  ℕ, zero, suc, ◌+◌, String, ◌≡◌, refl, List, [], ◌∷◌, ◌<>◌, ltb, ◌==◌, if◌then◌else◌,
}

-- `f"{field}[{key}]"`
unfoldable pub at_key : String → String → String
at_key field key = field <> "[" <> key <> "]"

-- The decimal digits of a number that is below the fuel.
unfoldable pub digits : ℕ → ℕ → String
digits zero n = ""
digits (suc f) n =
    let front = digits f (n / 10) in
    let last = slice "0123456789" (n % 10) (n % 10 + 1) in if ltb n 10 then last else front <> last

-- `str(n)`
unfoldable pub decimal : ℕ → String
unfolding digits
decimal n = digits (n + 1) n

-- Puts a text into a sorted list without repetitions.
insert_sorted : String → List String → List String
insert_sorted x [] = x ∷ []
insert_sorted x (y ∷ ys) =
    if x == y then y ∷ ys else if is_lt (compare x y) then x ∷ y ∷ ys else y ∷ insert_sorted x ys

-- `sorted(set(xs))`
unfoldable pub sorted_set : List String → List String
unfolding insert_sorted
sorted_set [] = []
sorted_set (x ∷ xs) = insert_sorted x (sorted_set xs)

decimal_example : decimal 120 ≡ "120"
unfolding decimal
decimal_example = refl

sorted_set_example : sorted_set ("b" ∷ "a" ∷ "b" ∷ []) ≡ "a" ∷ "b" ∷ []
unfolding sorted_set
sorted_set_example = refl
