-- ===== src/Collection/SortedMap/Refinement.antt =====
-- `SortedMap` as a list of entries: its pointers and its two structures agree, and each operation
-- is the operation on entries.
use zctl.Base.{ℕ, List, Option, none, some, ◌≡◌, refl, arith, inl, inr, Option-cases, ◌∙◌, sym}
use zctl.Collection.Any.{Any, any_eq_iff}
use zctl.Collection.SortedMap.{SortedMap, lookup, new, set_at, set_kv, get, remove_at, remove}
use zctl.Collection.SortedMap.Elements.{
  erase-none, id_of, Distinct, entries, find, upsert, erase, lookup-delete, lookup-assign,
  id_of-append, id_of-store, load-find, find-none, entries-store, entries-append, entries-unlink,
  id_of-unlink, Distinct-store, Distinct-unlink, Distinct-append, Below, Below-append, Below-store,
  Below-unlink,
}

-- The map of pointers holds, for every key, the pointer of the element with that key; keys and
-- pointers are distinct, and every pointer was allocated.
pub record IsCoherent (m : SortedMap) : Type 0 where
  pub agree : (k : Any) → lookup k m.keys ≡ id_of k m.kv
  pub distinct : Distinct m.kv
  pub allocated : Below m.fresh m.kv

abbrev pub view : SortedMap → List (Any × Any)
view m = entries m.kv

pub new-IsCoherent : IsCoherent new
unfolding new lookup id_of
new-IsCoherent = record { agree = λ k. refl; distinct = tt; allocated = tt }

set_at-IsCoherent :
    (key value : Any) (m : SortedMap) (o : Option ℕ)
    → lookup key m.keys ≡ o
    → IsCoherent m
    → IsCoherent (set_at o key value m)
unfolding set_at
set_at-IsCoherent key value m none h c =
    let absent : id_of key m.kv ≡ none = sym (c.agree key) ∙ h in
    record {
      agree = λ k. ground (
        arith,
        lookup-assign k key m.fresh m.keys,
        id_of-append k key m.fresh value m.kv,
        c.agree k,
      );
      distinct = Distinct-append key m.fresh value m.kv c.allocated absent c.distinct;
      allocated = Below-append m.fresh _ m.kv refl c.allocated;
    }
set_at-IsCoherent key value m (some e) h c = record {
  agree = λ k. ground (
    arith,
    lookup-assign k key e m.keys,
    id_of-store k e value m.kv,
    c.agree k,
    any_eq_iff k key,
  );
  distinct = Distinct-store e value m.kv c.distinct;
  allocated = Below-store m.fresh e value m.kv c.allocated;
}

pub set_kv-IsCoherent :
    (key value : Any) (m : SortedMap) → IsCoherent m → IsCoherent (set_kv key value m)
unfolding set_kv
set_kv-IsCoherent key value m c = set_at-IsCoherent key value m (lookup key m.keys) refl c

view-set_at :
    (key value : Any) (m : SortedMap) (o : Option ℕ)
    → lookup key m.keys ≡ o
    → IsCoherent m
    → view (set_at o key value m) ≡ upsert key value (view m)
unfolding set_at
view-set_at key value m none h c = entries-append key m.fresh value m.kv (sym (c.agree key) ∙ h)
view-set_at key value m (some e) h c =
    entries-store key e value m.kv c.distinct (sym (c.agree key) ∙ h)

pub view-set_kv :
    (key value : Any) (m : SortedMap)
    → IsCoherent m
    → view (set_kv key value m) ≡ upsert key value (view m)
unfolding set_kv
view-set_kv key value m c = view-set_at key value m (lookup key m.keys) refl c

-- On a coherent map `SetKV` gives a coherent map, whose entries are the old ones with the key's
-- entry updated in its place, or added at the end.
pub set_kv-upsert :
    (key value : Any) (m : SortedMap)
    → IsCoherent m
    → IsCoherent (set_kv key value m) × (view (set_kv key value m) ≡ upsert key value (view m))
set_kv-upsert key value m c = (set_kv-IsCoherent key value m c, view-set_kv key value m c)

-- `Get` looks the key up in the entries.
pub get-find : (key : Any) (m : SortedMap) → IsCoherent m → get key m ≡ find key (view m)
unfolding get
get-find key m c = elim (Option-cases (id_of key m.kv)) [
  | inl e ↦ rw (c.agree key, e, get) (sym (find-none key m.kv e))
  | inr (p, e) ↦ rw (c.agree key, e, get) (load-find key p m.kv c.distinct e)
]

remove_at-IsCoherent :
    (key : Any) (m : SortedMap) (o : Option ℕ)
    → lookup key m.keys ≡ o
    → IsCoherent m
    → IsCoherent (remove_at o key m).1
unfolding remove_at
remove_at-IsCoherent key m none h c = c
remove_at-IsCoherent key m (some e) h c = record {
  agree = λ k.
      lookup-delete k key m.keys
      ∙ ground (arith, id_of-unlink k key e m.kv c.distinct (sym (c.agree key) ∙ h), c.agree k);
  distinct = Distinct-unlink e m.kv c.distinct;
  allocated = Below-unlink m.fresh e m.kv c.allocated;
}

remove_at-erase :
    (key : Any) (m : SortedMap) (o : Option ℕ)
    → lookup key m.keys ≡ o
    → IsCoherent m
    → ((remove_at o key m).0 ≡ find key (view m))
      × (view (remove_at o key m).1 ≡ erase key (view m))
unfolding remove_at
remove_at-erase key m none h c =
    let e = sym (c.agree key) ∙ h in (sym (find-none key m.kv e), sym (erase-none key m.kv e))
remove_at-erase key m (some p) h c =
    let e = sym (c.agree key) ∙ h in
    (load-find key p m.kv c.distinct e, entries-unlink key p m.kv c.distinct e)

-- On a coherent map `Remove` gives a coherent map: it answers with the value that the entries hold
-- for the key, and takes that entry out.
pub remove-erase :
    (key : Any) (m : SortedMap)
    → IsCoherent m
    → IsCoherent (remove key m).1
      × ((remove key m).0 ≡ find key (view m))
      × (view (remove key m).1 ≡ erase key (view m))
unfolding remove
remove-erase key m c =
    let e = remove_at-erase key m (lookup key m.keys) refl c in
    (remove_at-IsCoherent key m (lookup key m.keys) refl c, e.0, e.1)
