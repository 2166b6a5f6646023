-- ===== src/Collection/SortedMap/Expression.antt =====
-- `SetExpression` and `Set` of pkg/collection/sortedmap.go.
use zctl.Base.{
  ℕ, suc, zero, ◌+◌, Bool, true, false, ◌||◌, [], ◌∷◌, ◌++◌, Option, none, some, if◌then◌else◌,
  ◌==◌, Text, ◌≡◌, ◌≢◌, refl, arith, inl, inr, ap, ◌∙◌, sym, take, drop, length, ◌⊎◌, All,
  take-length-append, length-append,
}
use zctl.Util.Stringx.{contains_white_space}
use zctl.Collection.Any.{str}
use zctl.Collection.SortedMap.{SortedMap, set_kv}

abbrev next : Option ℕ → Option ℕ
next none = none
next (some i) = some (suc i)

-- `strings.Index(s, c)` for a text of one rune; `none` is -1.
unfoldable pub index : ℕ → Text → Option ℕ
index c [] = none
index c (d ∷ s) = if c == d then some 0 else next (index c s)

abbrev is_empty : Text → Bool
is_empty [] = true
is_empty (c ∷ s) = false

-- `SetExpression` behind the two slices.
unfoldable pub accept : Text → Text → SortedMap → Option (Text × Text) × SortedMap
accept key value m =
    if contains_white_space key || contains_white_space value || is_empty key
    then (none, m)
    else (some (key, value), set_kv (str key) (str value) m)

-- `SetExpression` behind the index; `none` is `ErrInvalidKVExpression`.
unfoldable pub at_index : Option ℕ → Text → SortedMap → Option (Text × Text) × SortedMap
at_index none e m = (none, m)
at_index (some i) e m = accept (take i e) (if length e == i then [] else drop (i + 1) e) m

unfoldable pub set_expression : Text → SortedMap → Option (Text × Text) × SortedMap
unfolding index at_index accept
set_expression e m = at_index (index b'=' e) e m

-- The index cuts the text in two at the first occurrence.
index-some :
    (c : ℕ) (s : Text) (i : ℕ)
    → index c s ≡ some i
    → (take i s ++ c ∷ drop (i + 1) s ≡ s)
      × All (λ d. (c == d) ≡ false) (take i s)
      × ((length s == i) ≡ false)
unfolding index
index-some c [] i h = cc
index-some c (d ∷ s) zero h = ground arith
index-some c (d ∷ s) (suc i) h = ground (arith, index-some c s i)

index-append :
    (c : ℕ) (k v : Text) → All (λ d. (c == d) ≡ false) k → index c (k ++ c ∷ v) ≡ some (length k)
unfolding index
index-append c [] v h = ground arith
index-append c (d ∷ k) v h = ground (arith, index-append c k v h.1)

-- What `SetExpression` takes: a key that is not empty, `=` and a value, without white space.
abbrev pub IsExpression : Text → Text → Text → Type 0
IsExpression e k v =
    (e ≡ k ++ b'=' ∷ v)
    × All (λ d. (b'=' == d) ≡ false) k
    × (k ≢ [])
    × (contains_white_space k ≡ false)
    × (contains_white_space v ≡ false)

accept_sound :
    (k v : Text) (m : SortedMap)
    → (accept k v m ≡ (none, m))
      ⊎ ((k ≢ [])
          × (contains_white_space k ≡ false)
          × (contains_white_space v ≡ false)
          × (accept k v m ≡ (some (k, v), set_kv (str k) (str v) m)))
unfolding accept
accept_sound [] v m = inl (ground arith)
accept_sound (c ∷ k) v m = ground arith

at_index-accept :
    (e : Text) (i : ℕ) (m : SortedMap)
    → (length e == i) ≡ false
    → at_index (some i) e m ≡ accept (take i e) (drop (i + 1) e) m
unfolding at_index
at_index-accept e i m h = ap (λ b. accept (take i e) (if b then [] else drop (i + 1) e) m) h

at_index_sound :
    (o : Option ℕ) (e : Text) (m : SortedMap)
    → index b'=' e ≡ o
    → (at_index o e m ≡ (none, m))
      ⊎ ((k : Text) × (v : Text) × IsExpression e k v
          × (at_index o e m ≡ (some (k, v), set_kv (str k) (str v) m)))
unfolding at_index
at_index_sound none e m h = inl refl
at_index_sound (some i) e m h =
    let (spells, first, inside) = index-some b'=' e i h in
    let step = at_index-accept e i m inside in
    elim (accept_sound (take i e) (drop (i + 1) e) m) [
      | inl refused ↦ inl (step ∙ refused)
      | inr (ne, kw, vw, taken) ↦
          inr (take i e, drop (i + 1) e, (sym spells, first, ne, kw, vw), step ∙ taken)
    ]

-- `SetExpression` either fails and leaves the map as it was, or its argument is an expression, cut
-- at its first `=`, and the key is set to the value.
pub set_expression_sound :
    (e : Text) (m : SortedMap)
    → (set_expression e m ≡ (none, m))
      ⊎ ((k : Text) × (v : Text) × IsExpression e k v
          × (set_expression e m ≡ (some (k, v), set_kv (str k) (str v) m)))
unfolding set_expression
set_expression_sound e m = at_index_sound (index b'=' e) e m refl

accept_complete :
    (k v : Text) (m : SortedMap)
    → k ≢ []
    → contains_white_space k ≡ false
    → contains_white_space v ≡ false
    → accept k v m ≡ (some (k, v), set_kv (str k) (str v) m)
unfolding accept
accept_complete [] v m ne kw vw = absurd (ne refl)
accept_complete (c ∷ k) v m ne kw vw = ground arith

longer : (k v : Text) → (length (k ++ b'=' ∷ v) == length k) ≡ false
longer k v = ground (arith, length-append k (b'=' ∷ v))

drop-behind : (k v : Text) → drop (length k + 1) (k ++ b'=' ∷ v) ≡ v
drop-behind [] v = refl
drop-behind (c ∷ k) v = ground (arith, drop-behind k v)

-- It takes every expression.
pub set_expression_complete :
    (e k v : Text) (m : SortedMap)
    → IsExpression e k v
    → set_expression e m ≡ (some (k, v), set_kv (str k) (str v) m)
unfolding set_expression
set_expression_complete e k v m (spells, first, ne, kw, vw) =
    ap (λ s. at_index (index b'=' s) s m) spells
    ∙ ap (λ o. at_index o (k ++ b'=' ∷ v) m) (index-append b'=' k v first)
    ∙ at_index-accept (k ++ b'=' ∷ v) (length k) m (longer k v)
    ∙ ap (λ t. accept t (drop (length k + 1) (k ++ b'=' ∷ v)) m) (take-length-append k (b'=' ∷ v))
    ∙ ap (λ t. accept k t m) (drop-behind k v)
    ∙ accept_complete k v m ne kw vw
