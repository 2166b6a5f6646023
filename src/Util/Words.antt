-- ===== src/Util/Words.antt =====
-- `strings.Join`, and lists of words without a separator.
use zctl.Base.{ℕ, Bool, List, [], ◌∷◌, ◌++◌, if◌then◌else◌, ◌≡◌, refl, Text, append_assoc}

unfoldable pub join : List Text → Text → Text
join [] sep = []
join (w ∷ []) sep = w
join (w ∷ v ∷ ws) sep = w ++ (sep ++ join (v ∷ ws) sep)

-- The runes of a text that pass a test.
unfoldable pub keep : (ℕ → Bool) → Text → Text
keep p [] = []
keep p (c ∷ s) = if p c then c ∷ keep p s else keep p s

unfoldable pub concat : List Text → Text
concat [] = []
concat (w ∷ ws) = w ++ concat ws

pub concat-append : (xs ys : List Text) → concat (xs ++ ys) ≡ concat xs ++ concat ys
unfolding concat
concat-append [] ys = refl
concat-append (x ∷ xs) ys = simp (concat-append xs ys, append_assoc)
