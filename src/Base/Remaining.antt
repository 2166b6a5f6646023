-- ===== src/Base/Remaining.antt =====
-- Counting the texts of a list that are not yet in another: what a walk over them has left.
use Prim.Native.Nat.{ℕ, ◌+◌, ◌≤◌, ◌<◌}
use mathlib.Core.Path.{◌≡◌, sym, ap}
use mathlib.Core.Logic.{inl, inr}
use mathlib.Core.Bool.{true, false}
use mathlib.Core.List.{List, [], ◌∷◌}
use native.Mathlib.Omega.{arith}
use zctl.Base.Tests.{if◌then◌else◌, Bool-cases}
use zctl.Base.Lists.{length}
use zctl.Base.Runes.{Text, text_eq, text_mem, text_eq_iff}

-- How many texts of the first list are not in the second.
unfoldable pub remaining : List Text → List Text → ℕ
unfolding text_mem
remaining [] vs = 0
remaining (u ∷ us) vs = (if text_mem u vs then 0 else 1) + remaining us vs

pub remaining_kept :
    (us vs ws : List Text)
    → ((x : Text) → text_mem x vs ≡ true → text_mem x ws ≡ true)
    → remaining us ws ≤ remaining us vs
unfolding remaining
remaining_kept [] vs ws h = omega arith
remaining_kept (u ∷ us) vs ws h = ground (arith, h u, remaining_kept us vs ws h)

pub remaining-cons :
    (b : Text) (us vs : List Text)
    → text_mem b us ≡ true
    → text_mem b vs ≡ false
    → remaining us (b ∷ vs) < remaining us vs
unfolding remaining text_mem
remaining-cons b [] vs h n = cc
remaining-cons b (u ∷ us) vs h n = elim (Bool-cases (text_eq b u)) [
  | inl e ↦
      let k = remaining_kept us vs (b ∷ vs) (λ x m. ground (arith, m)) in
      let q : u ≡ b = sym ((text_eq_iff b u).0 e) in
      ground (arith, k, n, text_eq_iff u b, q, ap (λ y. text_mem y vs) q)
  | inr e ↦ ground (arith, e, h, remaining-cons b us vs, n)
]

pub remaining-length : (us vs : List Text) → remaining us vs ≤ length us
unfolding remaining
remaining-length [] vs = omega arith
remaining-length (u ∷ us) vs = ground (arith, remaining-length us vs)

pub remaining_single :
    (us : List Text) (src : Text) (n : ℕ) → length us < n → remaining us (src ∷ []) < n
remaining_single us src n l = omega (arith, l, remaining-length us (src ∷ []))
