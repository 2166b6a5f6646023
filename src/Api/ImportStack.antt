-- ===== src/Api/ImportStack.antt =====
-- pkg/parser/api/importstack: the stack of files that are being imported.
use zctl.Base.{
  IsAcyclic, append-IsAcyclic, ◌⊎◌, true, false, List, [], ◌∷◌, ◌++◌, Option, none, some,
  if◌then◌else◌, ◌≡◌, refl, Text, text_mem, Bool-cases, inl, inr,
}

-- `Push`; `none` is `ErrImportCycleNotAllowed`, which leaves the stack as it was.
unfoldable pub push : Text → List Text → Option (List Text)
unfolding text_mem
push p s = if text_mem p s then none else some (s ++ p ∷ [])

-- `Pop`; `none` is the panic of the slice `[0:-1]` of an empty stack.
unfoldable pub pop : List Text → Option (List Text)
pop [] = none
pop (x ∷ []) = some []
pop (x ∷ y ∷ s) = elim (pop (y ∷ s)) [ none ↦ none | some r ↦ some (x ∷ r) ]

pub pop-append : (p : Text) (s : List Text) → pop (s ++ p ∷ []) ≡ some s
unfolding pop
pop-append p [] = refl
pop-append p (x ∷ []) = refl
pop-append p (x ∷ y ∷ s) = rw (pop-append p (y ∷ s))

-- A path is pushed exactly when it is not on the stack: otherwise the push reports a cycle. A push
-- keeps the stack without repetitions, and `Pop` undoes it.
pub push_lem :
    (p : Text) (s : List Text)
    → IsAcyclic s
    → ((text_mem p s ≡ true) × (push p s ≡ none))
      ⊎ ((text_mem p s ≡ false)
          × ((t : List Text) × (push p s ≡ some t) × IsAcyclic t × (pop t ≡ some s)))
unfolding push
push_lem p s a = elim (Bool-cases (text_mem p s)) [
  | inl cycle ↦ inl (cycle, rw cycle)
  | inr new ↦ inr (new, (s ++ p ∷ [], rw new, append-IsAcyclic p s new a, pop-append p s))
]
