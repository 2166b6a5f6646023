-- ===== src/Collection/Any.antt =====
-- Go's `any`, as far as pkg/collection looks into it: a string, or a comparable value of another
-- dynamic type, given by a number for the type and one for the value.
use zctl.Base.{ℕ, Bool, true, false, ◌&&◌, ◌≡◌, ◌↔◌, refl, arith, ◌==◌, Text, text_eq, text_eq_iff}

pub data Any : Type 0 where
  str : Text → Any
  other : ℕ → ℕ → Any

-- `==` on interfaces.
unfoldable pub any_eq : Any → Any → Bool
any_eq (str s) (str t) = text_eq s t
any_eq (other a x) (other b y) = a == b && x == y
any_eq _ _ = false

pub any_eq_iff : (a b : Any) → (any_eq a b ≡ true) ↔ (a ≡ b)
unfolding any_eq
any_eq_iff (str s) (str t) = ground (arith, text_eq_iff s t)
any_eq_iff _ _ = ground arith

pub any_eq_refl : (a : Any) → any_eq a a ≡ true
any_eq_refl a = (any_eq_iff a a).1 refl
