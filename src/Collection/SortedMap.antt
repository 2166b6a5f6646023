-- ===== src/Collection/SortedMap.antt =====
-- pkg/collection/sortedmap.go: a list of elements in the order of insertion, and a map from keys
-- to pointers to them. A pointer is the number that its element was allocated with.
pub mod Elements
pub mod Refinement
pub mod Iteration
pub mod Expression
use zctl.Base.{
  ℕ, suc, Bool, true, false, not, List, [], ◌∷◌, ◌++◌, map, Option, none, some, Text, ◌==◌,
  if◌then◌else◌,
}
use zctl.Collection.Any.{Any, str, other, any_eq}

pub record Element : Type 0 where
  pub id : ℕ
  pub key : Any
  pub value : Any

pub record SortedMap : Type 0 where
  pub kv : List Element
  pub keys : List (Any × ℕ)
  -- the next pointer that is free
  pub fresh : ℕ

-- Go's built-in map.
unfoldable pub lookup : Any → List (Any × ℕ) → Option ℕ
lookup k [] = none
lookup k ((j, p) ∷ m) = if any_eq k j then some p else lookup k m

unfoldable pub delete : Any → List (Any × ℕ) → List (Any × ℕ)
delete k [] = []
delete k ((j, p) ∷ m) = if any_eq k j then delete k m else (j, p) ∷ delete k m

abbrev pub assign : Any → ℕ → List (Any × ℕ) → List (Any × ℕ)
assign k p m = (k, p) ∷ delete k m

-- `e.Value.(KV)[1]` behind the pointer.
unfoldable pub load : ℕ → List Element → Option Any
load p [] = none
load p (e ∷ es) = if p == e.id then some e.value else load p es

-- `e.Value.(KV)[1] = value`
unfoldable pub store : ℕ → Any → List Element → List Element
store p v [] = []
store p v (e ∷ es) = if p == e.id then record e { value = v } ∷ es else e ∷ store p v es

-- `m.kv.Remove(e)`
unfoldable pub unlink : ℕ → List Element → List Element
unlink p [] = []
unlink p (e ∷ es) = if p == e.id then es else e ∷ unlink p es

unfoldable pub new : SortedMap
new = record { kv = []; keys = []; fresh = 0 }

-- The two branches of `SetKV`, on what `m.keys[key]` gives.
unfoldable pub set_at : Option ℕ → Any → Any → SortedMap → SortedMap
set_at none key value m = record {
  kv = m.kv ++ (record { id = m.fresh; key = key; value = value } ∷ []);
  keys = assign key m.fresh m.keys;
  fresh = suc m.fresh;
}
set_at (some e) key value m = record m { kv = store e value m.kv; keys = assign key e m.keys }

unfoldable pub set_kv : Any → Any → SortedMap → SortedMap
unfolding set_at lookup store delete
set_kv key value m = set_at (lookup key m.keys) key value m

-- `Set`; the flag tells that `ErrInvalidKVS` is returned.
unfoldable pub set_pairs : List Any → SortedMap → SortedMap
set_pairs [] m = m
set_pairs (k ∷ []) m = m
set_pairs (k ∷ v ∷ kv) m = set_pairs kv (set_kv k v m)

unfoldable pub is_even_length : List Any → Bool
is_even_length [] = true
is_even_length (x ∷ xs) = not (is_even_length xs)

unfoldable pub set : List Any → SortedMap → Bool × SortedMap
unfolding set_pairs is_even_length
set kv m = if is_even_length kv then (false, set_pairs kv m) else (true, m)

unfoldable pub get : Any → SortedMap → Option Any
get key m = elim (lookup key m.keys) [ none ↦ none | some e ↦ load e m.kv ]

unfoldable pub get_or : Any → Any → SortedMap → Any
get_or key dft m = elim (get key m) [ none ↦ dft | some v ↦ v ]

abbrev pub as_string : Any → Option Text
as_string (str s) = some s
as_string (other a x) = none

-- `GetString`: `none` stands for `ok == false`.
unfoldable pub get_string : Any → SortedMap → Option Text
get_string key m = elim (get key m) [ none ↦ none | some v ↦ as_string v ]

unfoldable pub get_string_or : Any → Text → SortedMap → Text
get_string_or key dft m = elim (get_string key m) [ none ↦ dft | some s ↦ s ]

unfoldable pub has_key : Any → SortedMap → Bool
has_key key m = elim (lookup key m.keys) [ none ↦ false | some e ↦ true ]

unfoldable pub keys_of : SortedMap → List Any
keys_of m = map (λ (e : Element). e.key) m.kv

-- `m.keys[key].Value.(KV)[1]` for each key; `none` is the dereference of a nil pointer.
unfoldable pub values_at : List Any → SortedMap → Option (List Any)
values_at [] m = some []
values_at (k ∷ ks) m = elim (get k m) [
  | none ↦ none
  | some v ↦ elim (values_at ks m) [ none ↦ none | some vs ↦ some (v ∷ vs) ]
]

unfoldable pub values_of : SortedMap → Option (List Any)
unfolding values_at keys_of
values_of m = values_at (keys_of m) m

-- `Range`, with what the iterator changes as a state that is passed on.
module _ {ℓ} {S : Type ℓ} where
  unfoldable pub range_list : (Any → Any → S → S) → List Element → S → S
  range_list f [] s = s
  range_list f (e ∷ es) s = range_list f es (f e.key e.value s)

  unfoldable pub range : (Any → Any → S → S) → SortedMap → S → S
  unfolding range_list
  range f m s = range_list f m.kv s

  unfoldable pub range_if_list : (Any → Any → S → Bool × S) → List Element → S → S
  range_if_list f [] s = s
  range_if_list f (e ∷ es) s =
      let (loop, s') = f e.key e.value s in
      let rest = range_if_list f es s' in if not loop then s' else rest

  unfoldable pub range_if : (Any → Any → S → Bool × S) → SortedMap → S → S
  unfolding range_if_list
  range_if f m s = range_if_list f m.kv s

unfoldable pub has_value : Any → SortedMap → Bool
unfolding range_if
has_value value m =
    range_if (λ key v contains. if any_eq value v then (false, true) else (true, contains)) m false

-- `Remove`: the value, and the map without the key.
unfoldable pub remove_at : Option ℕ → Any → SortedMap → Option Any × SortedMap
remove_at none key m = (none, m)
remove_at (some e) key m = (load e m.kv, record m { kv = unlink e m.kv; keys = delete key m.keys })

unfoldable pub remove : Any → SortedMap → Option Any × SortedMap
unfolding remove_at lookup load unlink delete
remove key m = remove_at (lookup key m.keys) key m

unfoldable pub insert : SortedMap → SortedMap → SortedMap
insert sm m = range set_kv sm m

unfoldable pub copy : SortedMap → SortedMap
copy m = range set_kv m new

-- `Format`; `sprintf` is `fmt.Sprintf("%s", _)`.
unfoldable pub format : (Any → Text) → SortedMap → List Text
format sprintf m = range (λ key value out. out ++ (sprintf key ++ b'=' ∷ sprintf value) ∷ []) m []

unfoldable pub reset : SortedMap → SortedMap
reset m = record m { kv = []; keys = [] }
