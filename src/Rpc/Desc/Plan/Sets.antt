-- ===== src/Rpc/Desc/Plan/Sets.antt =====
-- The sets and lists that a plan is made of, by what is in them.
use zctl.Base.{
  Bool, false, not, ◌&&◌, ◌||◌, List, [], ◌∷◌, Text, text_eq, text_mem, text_eq_iff, ◌≡◌, refl, ap,
  ◌∙◌, arith, Bool-cases, inl, inr,
}
use zctl.Rpc.Merge.{insert_text, sort_texts}
use zctl.Rpc.Desc.Plan.{MessageBlock, kept_messages, without_self, keys}

text_mem-insert_text :
    (p t : Text) (ts : List Text) → text_mem p (insert_text t ts) ≡ (text_eq p t || text_mem p ts)
unfolding insert_text text_mem
text_mem-insert_text p t [] = refl
text_mem-insert_text p t (u ∷ us) = ground (arith, text_mem-insert_text p t us)

pub text_mem-sort_texts : (p : Text) (ts : List Text) → text_mem p (sort_texts ts) ≡ text_mem p ts
unfolding sort_texts text_mem
text_mem-sort_texts p [] = refl
text_mem-sort_texts p (t ∷ ts) =
    text_mem-insert_text p t (sort_texts ts) ∙ ap (λ b. text_eq p t || b) (text_mem-sort_texts p ts)

pub text_mem-without_self :
    (p self : Text) (ps : List Text)
    → text_mem p (without_self self ps) ≡ (text_mem p ps && not (text_eq p self))
unfolding without_self text_mem
text_mem-without_self p self [] = refl
text_mem-without_self p self (q ∷ ps) = ground (
  arith,
  text_mem-without_self p self ps,
  text_eq_iff q self,
  text_eq_iff p q,
  text_eq_iff p self,
)

pub text_mem-keys : (p : Text) (ps : List Text) → text_mem p (keys ps) ≡ text_mem p ps
unfolding keys text_mem
text_mem-keys p [] = refl
text_mem-keys p (q ∷ ps) = elim (Bool-cases (text_eq p q)) [
  | inl e ↦ ground (arith, e, text_mem-keys p ps, ap (λ x. text_mem x ps) ((text_eq_iff p q).0 e))
  | inr e ↦ ground (arith, e, text_mem-keys p ps)
]

-- A block with the name.
unfoldable pub has_block : Text → List MessageBlock → Bool
has_block name [] = false
has_block name (m ∷ ms) = text_eq name m.name || has_block name ms

pub has_block-kept_messages :
    (name : Text) (needed : List Text) (ms : List MessageBlock)
    → has_block name (kept_messages needed ms) ≡ (has_block name ms && text_mem name needed)
unfolding has_block kept_messages
has_block-kept_messages name needed [] = refl
has_block-kept_messages name needed (m ∷ ms) = elim (Bool-cases (text_eq name m.name)) [
  | inl e ↦ ground (
    arith,
    e,
    has_block-kept_messages name needed ms,
    ap (λ x. text_mem x needed) ((text_eq_iff name m.name).0 e),
  )
  | inr e ↦ ground (arith, e, has_block-kept_messages name needed ms)
]
