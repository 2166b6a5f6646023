-- ===== src/Collection/SortedMap/Elements.antt =====
-- The list of elements with distinct keys and pointers, and the built-in map.
use zctl.Base.{
  ℕ, suc, ◌<◌, false, List, [], ◌∷◌, ◌++◌, map, Option, none, some, ◌==◌, if◌then◌else◌, All, ◌≡◌,
  refl, arith, Bool-cases, inl, inr,
}
use zctl.Collection.Any.{Any, any_eq, any_eq_iff, any_eq_refl}
use zctl.Collection.SortedMap.{Element, lookup, delete, assign, load, store, unlink}

-- The pointer to the first element with a key.
unfoldable pub id_of : Any → List Element → Option ℕ
id_of k [] = none
id_of k (e ∷ es) = if any_eq k e.key then some e.id else id_of k es

abbrev pub LacksId : ℕ → List Element → Type 0
LacksId p = All (λ e. (p == e.id) ≡ false)

abbrev pub Distinct : List Element → Type 0
Distinct [] = Unit {0}
Distinct (e ∷ es) = (id_of e.key es ≡ none) × LacksId e.id es × Distinct es

-- The map that the elements stand for: its entries, oldest first.
abbrev pub entries : List Element → List (Any × Any)
entries = map (λ (e : Element). (e.key, e.value))

unfoldable pub find : Any → List (Any × Any) → Option Any
find k [] = none
find k ((j, v) ∷ es) = if any_eq k j then some v else find k es

-- A new key goes to the end, an old one keeps its place.
unfoldable pub upsert : Any → Any → List (Any × Any) → List (Any × Any)
upsert k v [] = (k, v) ∷ []
upsert k v ((j, w) ∷ es) = if any_eq k j then (j, v) ∷ es else (j, w) ∷ upsert k v es

unfoldable pub erase : Any → List (Any × Any) → List (Any × Any)
erase k [] = []
erase k ((j, w) ∷ es) = if any_eq k j then es else (j, w) ∷ erase k es

pub lookup-delete :
    (j k : Any) (m : List (Any × ℕ))
    → lookup j (delete k m) ≡ (if any_eq j k then none else lookup j m)
unfolding lookup delete
lookup-delete j k [] = ground arith
lookup-delete j k ((i, p) ∷ m) =
    ground (arith, lookup-delete j k m, any_eq_iff j k, any_eq_iff k i, any_eq_iff j i)

pub lookup-assign :
    (j k : Any) (p : ℕ) (m : List (Any × ℕ))
    → lookup j (assign k p m) ≡ (if any_eq j k then some p else lookup j m)
unfolding lookup
lookup-assign j k p m = ground (arith, lookup-delete j k m)

-- A pointer that the list lacks is no result of `id_of`.
id_of-ne :
    (k : Any) (p q : ℕ) (es : List Element) → LacksId q es → id_of k es ≡ some p → (q == p) ≡ false
unfolding id_of
id_of-ne k p q [] l h = cc
id_of-ne k p q (e ∷ es) l h = ground (arith, id_of-ne k p q es l.1)

pub id_of-append :
    (j k : Any) (p : ℕ) (v : Any) (es : List Element)
    → id_of k es ≡ none
    → id_of j (es ++ (record { id = p; key = k; value = v } ∷ []))
      ≡ (if any_eq j k then some p else id_of j es)
unfolding id_of
id_of-append j k p v [] n = refl
id_of-append j k p v (e ∷ es) n =
    ground (arith, id_of-append j k p v es, any_eq_iff j k, any_eq_iff j e.key, any_eq_iff k e.key)

pub id_of-store :
    (j : Any) (p : ℕ) (v : Any) (es : List Element) → id_of j (store p v es) ≡ id_of j es
unfolding id_of store
id_of-store j p v [] = refl
id_of-store j p v (e ∷ es) = ground (arith, id_of-store j p v es)

pub load-find :
    (k : Any) (p : ℕ) (es : List Element)
    → Distinct es
    → id_of k es ≡ some p
    → load p es ≡ find k (entries es)
unfolding id_of load find
load-find k p [] d h = cc
load-find k p (e ∷ es) d h = ground (arith, load-find k p es d.2, id_of-ne k p e.id es d.1)

pub find-none : (k : Any) (es : List Element) → id_of k es ≡ none → find k (entries es) ≡ none
unfolding id_of find
find-none k [] h = refl
find-none k (e ∷ es) h = ground (arith, find-none k es)

pub find-some :
    (k : Any) (p : ℕ) (es : List Element)
    → id_of k es ≡ some p
    → (v : Any) × (find k (entries es) ≡ some v)
unfolding id_of find
find-some k p [] h = cc
find-some k p (e ∷ es) h = elim (Bool-cases (any_eq k e.key)) [
  | inl same ↦ (e.value, rw same)
  | inr other ↦ rw other (find-some k p es (rw other at h))
]

pub entries-store :
    (k : Any) (p : ℕ) (v : Any) (es : List Element)
    → Distinct es
    → id_of k es ≡ some p
    → entries (store p v es) ≡ upsert k v (entries es)
unfolding id_of store upsert
entries-store k p v [] d h = cc
entries-store k p v (e ∷ es) d h =
    ground (arith, entries-store k p v es d.2, id_of-ne k p e.id es d.1)

pub entries-append :
    (k : Any) (p : ℕ) (v : Any) (es : List Element)
    → id_of k es ≡ none
    → entries (es ++ (record { id = p; key = k; value = v } ∷ [])) ≡ upsert k v (entries es)
unfolding id_of upsert
entries-append k p v [] h = refl
entries-append k p v (e ∷ es) h = ground (arith, entries-append k p v es)

pub entries-unlink :
    (k : Any) (p : ℕ) (es : List Element)
    → Distinct es
    → id_of k es ≡ some p
    → entries (unlink p es) ≡ erase k (entries es)
unfolding id_of unlink erase
entries-unlink k p [] d h = cc
entries-unlink k p (e ∷ es) d h =
    ground (arith, entries-unlink k p es d.2, id_of-ne k p e.id es d.1)

pub id_of-unlink :
    (j k : Any) (p : ℕ) (es : List Element)
    → Distinct es
    → id_of k es ≡ some p
    → id_of j (unlink p es) ≡ (if any_eq j k then none else id_of j es)
unfolding id_of unlink
id_of-unlink j k p [] d h = cc
id_of-unlink j k p (e ∷ es) d h = ground (
  arith,
  id_of-unlink j k p es d.2,
  id_of-ne k p e.id es d.1,
  any_eq_iff j k,
  any_eq_iff j e.key,
  any_eq_iff k e.key,
)

LacksId-store : (q p : ℕ) (v : Any) (es : List Element) → LacksId q es → LacksId q (store p v es)
unfolding store
LacksId-store q p v [] l = tt
LacksId-store q p v (e ∷ es) l = ground (arith, LacksId-store q p v es l.1)

LacksId-unlink : (q p : ℕ) (es : List Element) → LacksId q es → LacksId q (unlink p es)
unfolding unlink
LacksId-unlink q p [] l = tt
LacksId-unlink q p (e ∷ es) l = ground (arith, LacksId-unlink q p es l.1)

pub Distinct-store : (p : ℕ) (v : Any) (es : List Element) → Distinct es → Distinct (store p v es)
unfolding store
Distinct-store p v [] d = tt
Distinct-store p v (e ∷ es) d =
    ground
      (arith, Distinct-store p v es d.2, LacksId-store e.id p v es d.1, id_of-store e.key p v es)

id_of-unlink-none :
    (j : Any) (p : ℕ) (es : List Element) → id_of j es ≡ none → id_of j (unlink p es) ≡ none
unfolding id_of unlink
id_of-unlink-none j p [] h = refl
id_of-unlink-none j p (e ∷ es) h = ground (arith, id_of-unlink-none j p es)

pub Distinct-unlink : (p : ℕ) (es : List Element) → Distinct es → Distinct (unlink p es)
unfolding unlink
Distinct-unlink p [] d = tt
Distinct-unlink p (e ∷ es) d =
    ground
      (arith, Distinct-unlink p es d.2, LacksId-unlink e.id p es d.1, id_of-unlink-none e.key p es)

-- Every pointer was allocated.
abbrev pub Below : ℕ → List Element → Type 0
Below n = All (λ (e : Element). e.id < n)

LacksId-append :
    (q k_id : ℕ) (e : Element) (es : List Element)
    → LacksId q es
    → e.id ≡ k_id
    → q < k_id
    → LacksId q (es ++ e ∷ [])
LacksId-append q n e [] l h b = (ground arith, tt)
LacksId-append q n e (x ∷ es) l h b = (l.0, LacksId-append q n e es l.1 h b)

pub Distinct-append :
    (k : Any) (n : ℕ) (v : Any) (es : List Element)
    → Below n es
    → id_of k es ≡ none
    → Distinct es
    → Distinct (es ++ (record { id = n; key = k; value = v } ∷ []))
unfolding id_of
Distinct-append k n v [] b h d = (refl, tt, tt)
Distinct-append k n v (e ∷ es) b h d =
    let last : Element = record { id = n; key = k; value = v } in
    ground (
      arith,
      Distinct-append k n v es b.1,
      LacksId-append e.id n last es d.1,
      id_of-append e.key k n v es,
      any_eq_iff k e.key,
      any_eq_iff e.key k,
    )

pub Below-append :
    (n : ℕ) (e : Element) (es : List Element) → e.id ≡ n → Below n es → Below (suc n) (es ++ e ∷ [])
Below-append n e [] h b = (omega arith, tt)
Below-append n e (x ∷ es) h b = (omega (arith, b.0), Below-append n e es h b.1)

pub Below-store : (n p : ℕ) (v : Any) (es : List Element) → Below n es → Below n (store p v es)
unfolding store
Below-store n p v [] b = tt
Below-store n p v (e ∷ es) b = ground (arith, Below-store n p v es b.1)

pub Below-unlink : (n p : ℕ) (es : List Element) → Below n es → Below n (unlink p es)
unfolding unlink
Below-unlink n p [] b = tt
Below-unlink n p (e ∷ es) b = ground (arith, Below-unlink n p es b.1)

pub erase-none :
    (k : Any) (es : List Element) → id_of k es ≡ none → erase k (entries es) ≡ entries es
unfolding erase id_of
erase-none k [] h = refl
erase-none k (e ∷ es) h = ground (arith, erase-none k es)

pub upsert-none :
    (k v : Any) (es : List Element)
    → id_of k es ≡ none
    → upsert k v (entries es) ≡ entries es ++ (k, v) ∷ []
unfolding upsert id_of
upsert-none k v [] h = refl
upsert-none k v (e ∷ es) h = ground (arith, upsert-none k v es)

-- Every element is found under its key.
abbrev pub Found : List (Any × Any) → List Element → Type 0
Found all = All (λ (e : Element). find e.key all ≡ some e.value)

Found-cons :
    (k v : Any) (all : List (Any × Any)) (es : List Element)
    → id_of k es ≡ none
    → Found all es
    → Found ((k, v) ∷ all) es
unfolding id_of find
Found-cons k v all [] h f = tt
Found-cons k v all (e ∷ es) h f =
    ground (arith, Found-cons k v all es, any_eq_iff k e.key, any_eq_iff e.key k)

pub Distinct-Found : (es : List Element) → Distinct es → Found (entries es) es
unfolding find
Distinct-Found [] d = tt
Distinct-Found (e ∷ es) d =
    (rw (any_eq_refl e.key), Found-cons e.key e.value (entries es) es d.0 (Distinct-Found es d.2))

id_of-middle :
    (k : Any) (xs es : List Element) (e : Element)
    → id_of k (xs ++ e ∷ es) ≡ none
    → any_eq k e.key ≡ false
unfolding id_of
id_of-middle k [] es e h = ground arith
id_of-middle k (x ∷ xs) es e h = ground (arith, id_of-middle k xs es e)

-- No element before another one has its key.
pub id_of-before :
    (xs es : List Element) (e : Element) → Distinct (xs ++ e ∷ es) → id_of e.key xs ≡ none
unfolding id_of
id_of-before [] es e d = refl
id_of-before (x ∷ xs) es e d = ground (
  arith,
  id_of-before xs es e d.2,
  id_of-middle x.key xs es e d.0,
  any_eq_iff x.key e.key,
  any_eq_iff e.key x.key,
)
