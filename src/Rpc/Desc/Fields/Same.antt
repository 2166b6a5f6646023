-- ===== src/Rpc/Desc/Fields/Same.antt =====
-- What messageFieldsEqual compares: the fields of a message without their order.
use mathlib.Core.Logic.{∥∥₁_elim}
use mathlib.Core.Bool.{Bool-set}
use native.Mathlib.Nat.{ℕ_set}
use mathlib.Core.List.{Perm, Permᴰ}
use mathlib.Core.List.Perm
use zctl.Base.{
  true, List, [], ◌∷◌, ◌≡◌, refl, sym, ap, ◌∙◌, ◌≢◌, ◌↔◌, arith, All, length, ltb, ◌==◌, ==_iff,
  if◌then◌else◌, Bool-cases, inl, inr, text_eq_iff, subst,
}
use zctl.Base.Perms.{All-perm, length-perm}
use zctl.Rpc.Desc.Fields.{
  FieldSig, signed_key, insert_sig, sort_field_sigs_by_tag, sig_eq, sigs_equal,
  message_fields_equal,
}

-- No two of the fields have one tag.
abbrev pub HasDistinctTags : List FieldSig → Type 0
HasDistinctTags [] = Unit {0}
HasDistinctTags (f ∷ fs) = All (λ g. signed_key f ≢ signed_key g) fs × HasDistinctTags fs

insert_sig-swap :
    (f g : FieldSig) (fs : List FieldSig)
    → signed_key f ≢ signed_key g
    → insert_sig f (insert_sig g fs) ≡ insert_sig g (insert_sig f fs)
unfolding insert_sig
insert_sig-swap f g [] n = ground arith
insert_sig-swap f g (h ∷ fs) n = ground (arith, insert_sig-swap f g fs n)

HasDistinctTags-perm : {a b : List FieldSig} → Permᴰ a b → HasDistinctTags a → HasDistinctTags b
HasDistinctTags-perm Permᴰ.nil h = tt
HasDistinctTags-perm (Permᴰ.cons {l₂ = l} e p) h = (
  subst (λ f. All (λ g. signed_key f ≢ signed_key g) l) e (All-perm _ p h.0),
  HasDistinctTags-perm p h.1,
)
HasDistinctTags-perm (Permᴰ.swap {l = l} e d) h = (
  (
    (λ q. h.0.0 (ap signed_key e ∙ sym q ∙ sym (ap signed_key d))),
    subst (λ f. All (λ g. signed_key f ≢ signed_key g) l) d h.1.0,
  ),
  (subst (λ f. All (λ g. signed_key f ≢ signed_key g) l) e h.0.1, h.1.1),
)
HasDistinctTags-perm (Permᴰ.trans p q) h = HasDistinctTags-perm q (HasDistinctTags-perm p h)

sort-perm :
    {a b : List FieldSig}
    → Permᴰ a b
    → HasDistinctTags a
    → sort_field_sigs_by_tag a ≡ sort_field_sigs_by_tag b
unfolding sort_field_sigs_by_tag
sort-perm Permᴰ.nil h = refl
sort-perm (Permᴰ.cons e p) h = λ i. insert_sig (e i) (sort-perm p h.1 i)
sort-perm (Permᴰ.swap {l = l} e d) h =
    insert_sig-swap _ _ (sort_field_sigs_by_tag l) h.0.0
    ∙ (λ i. insert_sig (d i) (insert_sig (e i) (sort_field_sigs_by_tag l)))
sort-perm (Permᴰ.trans p q) h = sort-perm p h ∙ sort-perm q (HasDistinctTags-perm p h)

insert_sig-Perm : (f : FieldSig) (fs : List FieldSig) → Perm (insert_sig f fs) (f ∷ fs)
unfolding insert_sig
insert_sig-Perm f [] = Perm.refl _
insert_sig-Perm f (g ∷ fs) = elim (Bool-cases (ltb (signed_key g) (signed_key f))) [
  | inl e ↦
      rw (e, if◌then◌else◌) (Perm.trans (Perm.cons g (insert_sig-Perm f fs)) (Perm.swap f g fs))
  | inr e ↦ rw (e, if◌then◌else◌) (Perm.refl _)
]

pub sort_field_sigs_by_tag-Perm : (fs : List FieldSig) → Perm (sort_field_sigs_by_tag fs) fs
unfolding sort_field_sigs_by_tag
sort_field_sigs_by_tag-Perm [] = Perm.refl _
sort_field_sigs_by_tag-Perm (f ∷ fs) =
    Perm.trans (insert_sig-Perm f _) (Perm.cons f (sort_field_sigs_by_tag-Perm fs))

sig_eq_iff : (f g : FieldSig) → (sig_eq f g ≡ true) ↔ (f ≡ g)
unfolding sig_eq
sig_eq_iff f g = ground (
  arith,
  text_eq_iff f.modifier g.modifier,
  text_eq_iff f.type_name g.type_name,
  text_eq_iff f.name g.name,
)

sigs_equal_refl : (fs : List FieldSig) → sigs_equal fs fs ≡ true
unfolding sigs_equal
sigs_equal_refl [] = refl
sigs_equal_refl (f ∷ fs) = ground (arith, sig_eq_iff f f, sigs_equal_refl fs)

sigs_equal_sound :
    (fs gs : List FieldSig) → length fs ≡ length gs → sigs_equal fs gs ≡ true → fs ≡ gs
unfolding sigs_equal
sigs_equal_sound [] [] l h = refl
sigs_equal_sound [] (g ∷ gs) l h = ground arith
sigs_equal_sound (f ∷ fs) [] l h = cc
sigs_equal_sound (f ∷ fs) (g ∷ gs) l h = ground (arith, sig_eq_iff f g, sigs_equal_sound fs gs)

length-sort : (a : List FieldSig) → length (sort_field_sigs_by_tag a) ≡ length a
length-sort a = ∥∥₁_elim (sort_field_sigs_by_tag-Perm a) (ℕ_set _ _) length-perm

fields_sound : (a b : List FieldSig) → message_fields_equal a b ≡ true → Perm a b
unfolding message_fields_equal
fields_sound a b h = elim (Bool-cases (length a == length b)) [
  | inl e ↦
      let l = length-sort a ∙ (==_iff _ _).0 e ∙ sym (length-sort b) in
      let q = sigs_equal_sound _ _ l (ground (arith, h, e)) in
      Perm.trans (Perm.symm (sort_field_sigs_by_tag-Perm a))
        (subst (λ s. Perm s b) (sym q) (sort_field_sigs_by_tag-Perm b))
  | inr e ↦ ground (arith, h, e)
]

fields_complete :
    {a b : List FieldSig} → HasDistinctTags a → Permᴰ a b → message_fields_equal a b ≡ true
unfolding message_fields_equal
fields_complete {a} {b} d p =
    let l = length-perm p in
    let q = ap (sigs_equal (sort_field_sigs_by_tag a)) (sort-perm p d) in
    ground (arith, l, q, sigs_equal_refl (sort_field_sigs_by_tag a))

-- Where no two fields of the first message have one tag, messageFieldsEqual says `true` exactly
-- of messages with the same fields in any order.
pub message_fields_equal-Perm :
    (a b : List FieldSig) → HasDistinctTags a → (message_fields_equal a b ≡ true) ↔ Perm a b
message_fields_equal-Perm a b d =
    (fields_sound a b, λ p. ∥∥₁_elim p (Bool-set _ _) (fields_complete d))
