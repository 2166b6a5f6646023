-- ===== src/Collection/Tests.antt =====
-- A small map, and the theorems of this part at concrete inputs.
use zctl.Base.{[], ◌∷◌, none, some, Text, codes, ◌≡◌, refl, ◌⊎◌, text_eq}
use zctl.Collection.Any.{Any, str, any_eq}
use zctl.Collection.SortedMap.{SortedMap, new, set_kv, remove}
use zctl.Collection.SortedMap.Elements.{find, upsert, erase}
use zctl.Collection.SortedMap.Refinement.{
  IsCoherent, view, new-IsCoherent, set_kv-IsCoherent, set_kv-upsert, remove-erase,
}
use zctl.Collection.SortedMap.Expression.{set_expression, IsExpression, set_expression_sound}

abbrev a : Any
a = str (codes "a")

abbrev b : Any
b = str (codes "b")

-- Two keys, the first set twice.
pair : SortedMap
pair = set_kv a b (set_kv b a (set_kv a a new))

pair-IsCoherent : IsCoherent pair
unfolding pair
pair-IsCoherent =
    set_kv-IsCoherent a b _ (set_kv-IsCoherent b a _ (set_kv-IsCoherent a a new new-IsCoherent))

pair-view : view pair ≡ (a, b) ∷ (b, a) ∷ []
unfolding pair set_kv new any_eq text_eq
pair-view = refl

set_kv-upsert_example :
    IsCoherent (set_kv b b pair) × (view (set_kv b b pair) ≡ upsert b b (view pair))
set_kv-upsert_example = set_kv-upsert b b pair pair-IsCoherent

remove-erase_example :
    IsCoherent (remove a pair).1
    × ((remove a pair).0 ≡ find a (view pair))
    × (view (remove a pair).1 ≡ erase a (view pair))
remove-erase_example = remove-erase a pair pair-IsCoherent

set_expression_sound_example :
    (set_expression (codes "k=v=w") pair ≡ (none, pair))
    ⊎ ((k : Text) × (v : Text) × IsExpression (codes "k=v=w") k v
        × (set_expression (codes "k=v=w") pair ≡ (some (k, v), set_kv (str k) (str v) pair)))
set_expression_sound_example = set_expression_sound (codes "k=v=w") pair
