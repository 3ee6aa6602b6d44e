-- ===== src/Connections/Masking.antt =====
-- `apply_mask` of onto_platform/connections/masking.py. A text is the list of its code points.
pub mod Disclosure
pub mod Index
pub mod Resolver
use lingyunzhi_os_backend.Base.{
  ℕ, ◌-◌, Bool, true, false, List, [], ◌∷◌, ◌++◌, Option, none, some, ltb, nat_eq, length, take,
  last, replicate, if◌then◌else◌,
}
use lingyunzhi_os_backend.ProtoModels.{
  MaskingStrategy, mask_none, mask_nullify, mask_redact_full, show_last_4, show_first_2,
  mask_email_domain, mask_email_user, mask_phone_middle,
}

abbrev pub Text : Type 0
Text = List ℕ

-- What comes out for a value of a column: `None`, the value itself, or a text.
pub data Output {ℓ} (V : Type ℓ) : Type ℓ where
  null : Output V
  original : V → Output V
  masked : Text → Output V

abbrev pub stars : ℕ → Text
stars n = replicate n b'*'

-- `"@" in s`
unfoldable pub has_at : Text → Bool
has_at [] = false
has_at (c ∷ cs) = if nat_eq c b'@' then true else has_at cs

-- The first and the last part of `s.partition("@")`.
unfoldable pub before_at : Text → Text
before_at [] = []
before_at (c ∷ cs) = if nat_eq c b'@' then [] else c ∷ before_at cs

unfoldable pub after_at : Text → Text
after_at [] = []
after_at (c ∷ cs) = if nat_eq c b'@' then cs else after_at cs

-- The strategies that work on `s = str(value)`.
unfoldable pub mask_text {ℓ} : {V : Type ℓ} → V → Text → MaskingStrategy → Output V
mask_text v s mask_none = original v
mask_text v s mask_nullify = null
mask_text v s mask_redact_full = masked (stars 3)
mask_text v s show_last_4 =
    if ltb (length s) 4 then null else masked (stars (length s - 4) ++ last 4 s)
mask_text v s show_first_2 = if ltb (length s) 2 then null else masked (take 2 s ++ stars 4)
mask_text v s mask_email_domain = if has_at s then masked (before_at s ++ b'@' ∷ stars 3) else null
mask_text v s mask_email_user = if has_at s then masked (stars 3 ++ b'@' ∷ after_at s) else null
mask_text v s mask_phone_middle =
    if ltb (length s) 7 then null else masked (take 3 s ++ (stars 4 ++ last 4 s))

module _ {ℓ} {V : Type ℓ} (str : V → Text) where
  unfoldable pub apply_mask : Option V → MaskingStrategy → Output V
  apply_mask none strategy = null
  apply_mask (some v) strategy = mask_text v (str v) strategy
