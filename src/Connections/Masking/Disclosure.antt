-- ===== src/Connections/Masking/Disclosure.antt =====
-- How much of a value the strategies of `apply_mask` (onto_platform/connections/masking.py) let
-- through.
use lingyunzhi_os_backend.Base.{
  ℕ, zero, suc, ◌-◌, ◌≡◌, ◌≢◌, refl, ap, [], ◌∷◌, ◌++◌, some, arith, ltb, length, take, drop, last,
  ◌∙◌, inl, inr, Bool-cases, replicate, if◌then◌else◌, length-append, length-replicate, length-drop,
}
use mathlib.Core.Path.{subst}
use lingyunzhi_os_backend.ProtoModels.{
  MaskingStrategy, mask_none, mask_nullify, mask_redact_full, show_last_4, show_first_2,
  mask_email_domain, mask_email_user, mask_phone_middle,
}
use lingyunzhi_os_backend.Connections.Masking.{
  Output, null, Text, masked, stars, has_at, before_at, after_at, mask_text, apply_mask,
}

-- What each strategy may let a reader learn of a text: a length where the mask keeps it, and the
-- parts that it is meant to show.
pub record View : Type 0 where
  pub size : ℕ
  pub first : Text
  pub second : Text

abbrev hidden : View
hidden = record { size = 0; first = []; second = [] }

abbrev pub view : MaskingStrategy → Text → View
view mask_none s = record { size = length s; first = s; second = [] }
view mask_nullify s = hidden
view mask_redact_full s = hidden
view show_last_4 s =
    if ltb (length s) 4 then hidden else record { size = length s; first = last 4 s; second = [] }
view show_first_2 s =
    if ltb (length s) 2 then hidden else record { size = 2; first = take 2 s; second = [] }
view mask_email_domain s =
    if has_at s then record { size = 1; first = before_at s; second = [] } else hidden
view mask_email_user s =
    if has_at s then record { size = 1; first = after_at s; second = [] } else hidden
view mask_phone_middle s =
    if ltb (length s) 7 then hidden else record { size = 7; first = take 3 s; second = last 4 s }

-- Two values that look the same through a strategy's view have the same output, so that the output
-- tells nothing else of a value; for every strategy but the one that masks nothing.
pub apply_mask_hides {ℓ} :
    {V : Type ℓ} (str : V → Text) (v w : V) (strategy : MaskingStrategy)
    → strategy ≢ mask_none
    → view strategy (str v) ≡ view strategy (str w)
    → apply_mask str (some v) strategy ≡ apply_mask str (some w) strategy
unfolding apply_mask mask_text
apply_mask_hides str v w mask_none h e = absurd (h refl)
apply_mask_hides str v w mask_nullify h e = refl
apply_mask_hides str v w mask_redact_full h e = refl
apply_mask_hides str v w show_last_4 h e = ground arith
apply_mask_hides str v w show_first_2 h e = ground arith
apply_mask_hides str v w mask_email_domain h e = ground arith
apply_mask_hides str v w mask_email_user h e = ground arith
apply_mask_hides str v w mask_phone_middle h e = ground arith

drop-replicate : (n : ℕ) (c : ℕ) (s : Text) → drop n (replicate n c ++ s) ≡ s
drop-replicate zero c s = refl
drop-replicate (suc n) c s = drop-replicate n c s

null_masked {ℓ} : {V : Type ℓ} {t : Text} → ◌≡◌ {A = Output V} null (masked t) → ⊥
null_masked h = cc

masked_injective {ℓ} : {V : Type ℓ} {s t : Text} → ◌≡◌ {A = Output V} (masked s) (masked t) → s ≡ t
masked_injective h = cc

-- What SHOW_LAST_4 makes of a value that it does not blank out has the length of the value's text,
-- and its last four characters are those of the text.
pub show_last_4_length {ℓ} :
    {V : Type ℓ} (str : V → Text) (v : V) {out : Text}
    → apply_mask str (some v) show_last_4 ≡ masked out
    → (length out ≡ length (str v)) × (last 4 out ≡ last 4 (str v))
unfolding apply_mask mask_text
show_last_4_length str v {out} h = elim (Bool-cases (ltb (length (str v)) 4)) [
  | inl short ↦ absurd (null_masked (rw short at h))
  | inr enough ↦
      let n = length (str v) - 4 in
      let same = masked_injective (rw enough at h) in
      let kept : length (stars n ++ last 4 (str v)) ≡ length (str v) = ground (
        arith,
        length-append (stars n) (last 4 (str v)),
        length-replicate {A = ℕ} n b'*',
        length-drop n (str v),
      ) in
      subst (λ out. (length out ≡ length (str v)) × (last 4 out ≡ last 4 (str v))) same
        (
          kept,
          ap (λ m. drop (m - 4) (stars n ++ last 4 (str v))) kept
              ∙ drop-replicate n b'*' (last 4 (str v)),
        )
]

take_all : (n : ℕ) (s : Text) → length s ≡ n → take n s ≡ s
take_all zero [] h = refl
take_all zero (c ∷ s) h = absurd (omega arith)
take_all (suc n) [] h = refl
take_all (suc n) (c ∷ s) h = ap (λ r. c ∷ r) (take_all n s (omega arith))

-- At the shortest texts that are not refused nothing is hidden: SHOW_LAST_4 returns a text of four
-- characters as it is, SHOW_FIRST_2 a text of two with stars behind it, and MASK_PHONE_MIDDLE puts
-- stars between the first three and the other four of seven characters.
pub apply_mask_discloses {ℓ} :
    {V : Type ℓ} (str : V → Text) (two four seven : V)
    → length (str two) ≡ 2
    → length (str four) ≡ 4
    → length (str seven) ≡ 7
    → (apply_mask str (some four) show_last_4 ≡ masked (str four))
      × (apply_mask str (some two) show_first_2 ≡ masked (str two ++ stars 4))
      × (apply_mask str (some seven) mask_phone_middle
          ≡ masked (take 3 (str seven) ++ (stars 4 ++ drop 3 (str seven))))
unfolding apply_mask mask_text
apply_mask_discloses str two four seven h2 h4 h7 =
    (rw h4 refl, rw h2 (rw (take_all 2 (str two) h2) refl), rw h7 refl)
