-- ===== src/Util/Casing.antt =====
-- `unicode.ToLower` and `unicode.ToUpper`, which `strings.ToLower` and `strings.ToUpper` apply to
-- each rune: a parameter, with what Unicode's tables say of it.
use zctl.Base.{
  ℕ, ◌+◌, ◌-◌, ◌<◌, ◌≤◌, false, if◌then◌else◌, ◌≡◌, refl, arith, is_upper, is_lower, Text, map,
}

pub record Casing : Type 0 where
  pub lower : ℕ → ℕ
  pub upper : ℕ → ℕ
  -- on ASCII they move the letters by 32 and fix the rest
  pub lower_ascii : (c : ℕ) → c < 128 → lower c ≡ (if is_upper c then c + 32 else c)
  pub upper_ascii : (c : ℕ) → c < 128 → upper c ≡ (if is_lower c then c - 32 else c)
  pub lower_idem : (c : ℕ) → lower (lower c) ≡ lower c
  -- no rune has a capital of ASCII for its lower case
  pub lower_not_upper : (c : ℕ) → is_upper (lower c) ≡ false
  -- beyond ASCII a lower case is no sign of ASCII but a letter
  pub lower_sign : (c : ℕ) → 128 ≤ c → lower c ≤ b'`' → ⊥

-- `strings.ToLower`, `strings.ToUpper`
abbrev pub to_lower : Casing → Text → Text
to_lower u = map u.lower

abbrev pub to_upper : Casing → Text → Text
to_upper u = map u.upper

-- The tables of ASCII alone.
abbrev pub ascii_lower : ℕ → ℕ
ascii_lower c = if is_upper c then c + 32 else c

abbrev pub ascii_upper : ℕ → ℕ
ascii_upper c = if is_lower c then c - 32 else c

pub ascii_lower_idem : (c : ℕ) → ascii_lower (ascii_lower c) ≡ ascii_lower c
ascii_lower_idem c = ground arith

pub ascii_lower_not_upper : (c : ℕ) → is_upper (ascii_lower c) ≡ false
ascii_lower_not_upper c = ground arith

pub ascii_lower_sign : (c : ℕ) → 128 ≤ c → ascii_lower c ≤ b'`' → ⊥
ascii_lower_sign c h k = ground arith

-- A casing that meets the laws.
abbrev pub ascii : Casing
ascii = record {
  lower = ascii_lower;
  upper = ascii_upper;
  lower_ascii = λ c h. refl;
  upper_ascii = λ c h. refl;
  lower_idem = ascii_lower_idem;
  lower_not_upper = ascii_lower_not_upper;
  lower_sign = ascii_lower_sign;
}
