-- ===== src/Base/Loop.antt =====
-- Loops over lists that yield values, membership in lists of texts, and results with errors.
use Prim.Native.Nat.{ℕ, suc}
use Prim.Native.String.{String}
use mathlib.Core.Path.{◌≡◌, refl}
use mathlib.Core.Logic.{◌⊎◌, inl, inr}
use mathlib.Core.Bool.{Bool, true, false, ◌||◌}
use mathlib.Core.List.{List, [], ◌∷◌, ◌++◌}
use native.Mathlib.Omega.{arith}
use text.Mathlib.Text.{◌==◌}
use text.Mathlib.TextEquality.{eq_iff}
use lingyunzhi_os_backend.Base.Tests.{if◌then◌else◌}

module _ {ℓ κ} {A : Type ℓ} {B : Type κ} where
  -- `for x in xs: yield from f(x)`
  unfoldable pub for_each : List A → (A → List B) → List B
  for_each [] f = []
  for_each (x ∷ xs) f = f x ++ for_each xs f

module _ {ℓ} {A : Type ℓ} where
  abbrev pub length : List A → ℕ
  length [] = 0
  length (x ∷ xs) = suc (length xs)

  -- `if b: yield x`
  abbrev pub only_if : Bool → A → List A
  only_if true x = x ∷ []
  only_if false x = []

  -- `[x for x in xs if p(x)]`
  unfoldable pub select : (A → Bool) → List A → List A
  select p [] = []
  select p (x ∷ xs) = if p x then x ∷ select p xs else select p xs

  pub append-nil_split : (xs ys : List A) → (xs ++ ys) ≡ [] → (xs ≡ []) × (ys ≡ [])
  append-nil_split [] ys h = (refl, h)
  append-nil_split (x ∷ xs) ys h = cc

  pub only_if-nil : (b : Bool) (x : A) → only_if b x ≡ [] → b ≡ false
  only_if-nil true x h = cc
  only_if-nil false x h = refl

  pub append-nil_join : {xs ys : List A} → xs ≡ [] → ys ≡ [] → (xs ++ ys) ≡ []
  append-nil_join {xs} {ys} p q = cc

-- Loops that yield nothing.
module _ {ℓ κ} {A : Type ℓ} {B : Type κ} where
  pub for_each-nil_map :
      (xs : List A) (f g : A → List B)
      → ((x : A) → f x ≡ [] → g x ≡ [])
      → for_each xs f ≡ []
      → for_each xs g ≡ []
  unfolding for_each
  for_each-nil_map [] f g step h = refl
  for_each-nil_map (x ∷ xs) f g step h =
      let (here, later) = append-nil_split (f x) (for_each xs f) h in
      append-nil_join (step x here) (for_each-nil_map xs f g step later)

module _ {ℓ κ μ} {A : Type ℓ} {B : Type κ} {C : Type μ} where
  -- Two loops that yield nothing make a third yield nothing.
  pub for_each-nil_both :
      (xs : List A) (h : A → List C) (f g : A → List B)
      → ((x : A) → h x ≡ [] → f x ≡ [] → g x ≡ [])
      → for_each xs h ≡ []
      → for_each xs f ≡ []
      → for_each xs g ≡ []
  unfolding for_each
  for_each-nil_both [] h f g step p q = refl
  for_each-nil_both (x ∷ xs) h f g step p q =
      let (p', ps) = append-nil_split (h x) (for_each xs h) p in
      let (q', qs) = append-nil_split (f x) (for_each xs f) q in
      append-nil_join (step x p' q') (for_each-nil_both xs h f g step ps qs)

-- `x in xs` for texts.
unfoldable pub contains : String → List String → Bool
contains x [] = false
contains x (y ∷ ys) = x == y || contains x ys

-- A loop over texts among which `t` is not.
pub for_each-nil_except {ℓ} :
    {B : Type ℓ} (t : String) (xs : List String) (f g : String → List B)
    → ((x : String) → (x == t) ≡ false → f x ≡ [] → g x ≡ [])
    → contains t xs ≡ false
    → for_each xs f ≡ []
    → for_each xs g ≡ []
unfolding for_each contains
for_each-nil_except t [] f g step c q = refl
for_each-nil_except t (x ∷ xs) f g step c q =
    let (q', qs) = append-nil_split (f x) (for_each xs f) q in
    append-nil_join (step x (ground (arith, eq_iff t x, eq_iff x t)) q')
      (for_each-nil_except t xs f g step (ground arith) qs)

-- The results of code that may raise an exception of type `E`.
pub data Result {ℓ κ} (E : Type ℓ) (A : Type κ) : Type (ℓ ⊔ κ) where
  ok : A → Result E A
  err : E → Result E A

infixl 5 ◌>>=◌
abbrev pub ◌>>=◌ {ℓ κ μ} :
    {E : Type ℓ} {A : Type κ} {B : Type μ} → Result E A → (A → Result E B) → Result E B
ok a >>= f = f a
err e >>= f = err e

pub Result-cases {ℓ κ} :
    {E : Type ℓ} {A : Type κ} (r : Result E A) → ((a : A) × (r ≡ ok a)) ⊎ ((e : E) × (r ≡ err e))
Result-cases (ok a) = inl (a, refl)
Result-cases (err e) = inr (e, refl)

-- A test that guards a result: where the result is good, the test did not fail.
pub if-ok {ℓ κ} :
    {E : Type ℓ} {A : Type κ} (b : Bool) (e : E) (a : A) {x : A}
    → (if b then err e else ok a) ≡ ok x
    → (b ≡ false) × (x ≡ a)
if-ok true e a h = cc
if-ok false e a h = (refl, cc)

pub ok_injective {ℓ κ} :
    {E : Type ℓ} {A : Type κ} {a b : A} → ◌≡◌ {A = Result E A} (ok a) (ok b) → a ≡ b
ok_injective h = cc

-- A chain that gives a result: its first step gave one.
pub bind_ok {ℓ κ μ} :
    {E : Type ℓ} {A : Type κ} {B : Type μ} (r : Result E A) (f : A → Result E B) {b : B}
    → (r >>= f) ≡ ok b
    → (a : A) × (r ≡ ok a) × (f a ≡ ok b)
bind_ok (ok a) f h = (a, refl, h)
bind_ok (err e) f h = absurd cc
