-- ===== src/Base/Perms.antt =====
-- Permutations that can be taken apart.
use mathlib.Core.Path.{◌≡◌, refl, ap, ◌∙◌, subst}
use mathlib.Core.List.{List, [], ◌∷◌, Permᴰ}
use Prim.Native.Nat.{suc}
use zctl.Base.Lists.{All, length}

module _ {ℓ} {A : Type ℓ} where
  pub Perm_same : (a : List A) → Permᴰ a a
  Perm_same [] = Permᴰ.nil
  Perm_same (x ∷ a) = Permᴰ.cons refl (Perm_same a)

  pub Perm_swapped : (x y : A) (a : List A) → Permᴰ (x ∷ y ∷ a) (y ∷ x ∷ a)
  Perm_swapped x y a = Permᴰ.swap refl refl

  pub Perm_kept : (x : A) {a b : List A} → Permᴰ a b → Permᴰ (x ∷ a) (x ∷ b)
  Perm_kept x p = Permᴰ.cons refl p

  pub All-perm {κ} : (P : A → Type κ) {a b : List A} → Permᴰ a b → All P a → All P b
  All-perm P Permᴰ.nil h = tt
  All-perm P (Permᴰ.cons e p) h = (subst P e h.0, All-perm P p h.1)
  All-perm P (Permᴰ.swap e d) h = (subst P d h.1.0, (subst P e h.0, h.1.1))
  All-perm P (Permᴰ.trans p q) h = All-perm P q (All-perm P p h)

  pub length-perm : {a b : List A} → Permᴰ a b → length a ≡ length b
  length-perm Permᴰ.nil = refl
  length-perm (Permᴰ.cons _ p) = ap suc (length-perm p)
  length-perm (Permᴰ.swap _ _) = refl
  length-perm (Permᴰ.trans p q) = length-perm p ∙ length-perm q
