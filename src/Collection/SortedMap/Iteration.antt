-- ===== src/Collection/SortedMap/Iteration.antt =====
-- The operations that walk over a coherent `SortedMap`.
use mathlib.Core.List.{map-append}
use zctl.Base.{
  ◌↔◌, subst, Bool, true, false, List, [], ◌∷◌, ◌++◌, map, some, if◌then◌else◌, ◌≡◌, refl, arith,
  inl, inr, ap, ◌∙◌, sym, append_assoc, append-nil, Bool-cases,
}
use zctl.Collection.Any.{Any, any_eq, any_eq_iff}
use zctl.Collection.SortedMap.{
  Element, SortedMap, new, set_kv, keys_of, values_at, values_of, range_list, range, range_if_list,
  range_if, has_value, insert, copy,
}
use zctl.Collection.SortedMap.Elements.{
  id_of-before, Distinct, entries, upsert, Found, Distinct-Found, upsert-none,
}
use zctl.Collection.SortedMap.Refinement.{
  IsCoherent, view, new-IsCoherent, set_kv-IsCoherent, view-set_kv, get-find,
}

values_at-Found :
    (es : List Element) (m : SortedMap)
    → IsCoherent m
    → Found (view m) es
    → values_at (map (λ (e : Element). e.key) es) m ≡ some (map (λ (e : Element). e.value) es)
unfolding values_at
values_at-Found [] m c f = refl
values_at-Found (e ∷ es) m c f = ground (arith, get-find e.key m c, values_at-Found es m c f.1)

-- `Values` never meets a missing key, and is in the order of `Keys`.
pub values_of-view :
    (m : SortedMap) → IsCoherent m → values_of m ≡ some (map (λ (e : Element). e.value) m.kv)
unfolding values_of keys_of
values_of-view m c = values_at-Found m.kv m c (Distinct-Found m.kv c.distinct)

-- The entries that `Insert` leaves: those of the argument, put in one after the other.
pub upsert_all : List (Any × Any) → List (Any × Any) → List (Any × Any)
upsert_all [] es = es
upsert_all ((k, v) ∷ ns) es = upsert_all ns (upsert k v es)

range_list-set_kv :
    (es : List Element) (m : SortedMap)
    → IsCoherent m
    → IsCoherent (range_list set_kv es m)
      × (view (range_list set_kv es m) ≡ upsert_all (entries es) (view m))
unfolding range_list upsert_all
range_list-set_kv [] m c = (c, refl)
range_list-set_kv (e ∷ es) m c =
    let next =
      range_list-set_kv es (set_kv e.key e.value m) (set_kv-IsCoherent e.key e.value m c) in
    (next.0, next.1 ∙ ap (upsert_all (entries es)) (view-set_kv e.key e.value m c))

pub insert-upsert_all :
    (sm m : SortedMap)
    → IsCoherent m
    → IsCoherent (insert sm m) × (view (insert sm m) ≡ upsert_all (view sm) (view m))
unfolding insert range
insert-upsert_all sm m c = range_list-set_kv sm.kv m c

upsert_all-Distinct :
    (es done : List Element)
    → Distinct (done ++ es)
    → upsert_all (entries es) (entries done) ≡ entries (done ++ es)
unfolding upsert_all
upsert_all-Distinct [] done d = ap entries (sym (append-nil done))
upsert_all-Distinct (e ∷ es) done d =
    ap (upsert_all (entries es))
      (upsert-none e.key e.value done (id_of-before done es e d) ∙ sym (map-append _ done (e ∷ [])))
    ∙ upsert_all-Distinct es (done ++ e ∷ [])
        (subst Distinct (sym (append_assoc done (e ∷ []) es)) d)
    ∙ ap entries (append_assoc done (e ∷ []) es)

-- A copy of a coherent map is coherent and has the same entries in the same order.
pub view-copy : (m : SortedMap) → IsCoherent m → IsCoherent (copy m) × (view (copy m) ≡ view m)
unfolding copy range new
view-copy m c =
    let all = range_list-set_kv m.kv new new-IsCoherent in
    (all.0, all.1 ∙ upsert_all-Distinct m.kv [] c.distinct)

has_value_list : (value : Any) (es : List Element) (contains : Bool) → Bool
has_value_list value es contains =
    range_if_list (λ key v c. if any_eq value v then (false, true) else (true, c)) es contains

-- An entry with a value.
pub data Holds (value : Any) : List Element → Type 0 where
  here : (e : Element) (es : List Element) → value ≡ e.value → Holds value (e ∷ es)
  there : (e : Element) (es : List Element) → Holds value es → Holds value (e ∷ es)

has_value_sound :
    (value : Any) (es : List Element) → has_value_list value es false ≡ true → Holds value es
unfolding has_value_list range_if_list
has_value_sound value [] h = cc
has_value_sound value (e ∷ es) h = elim (Bool-cases (any_eq value e.value)) [
  | inl same ↦ here e es ((any_eq_iff value e.value).0 same)
  | inr other ↦ there e es (has_value_sound value es (rw other at h))
]

has_value_complete :
    (value : Any) (es : List Element) → Holds value es → has_value_list value es false ≡ true
unfolding has_value_list range_if_list
has_value_complete value _ (here e es h) = ground (arith, any_eq_iff value e.value)
has_value_complete value _ (there e es h) = ground (arith, has_value_complete value es h)

-- `HasValue` tells exactly whether an entry has the value.
pub has_value-Holds : (value : Any) (m : SortedMap) → (has_value value m ≡ true) ↔ Holds value m.kv
unfolding has_value has_value_list range_if
has_value-Holds value m = (has_value_sound value m.kv, has_value_complete value m.kv)
