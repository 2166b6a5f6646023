-- ===== src/Rpc/Desc/Scan/Kept.antt =====
-- What the scan does to its maps: entries are added, and none is lost or replaced.
use zctl.Base.{
  Bool, true, false, not, ◌&&◌, List, [], ◌∷◌, Option, none, some, Text, ◌≡◌, refl, arith, inl, inr,
  Bool-cases, Option-cases, text_eq, text_mem, text_eq_iff, if◌then◌else◌,
}
use zctl.Rpc.Desc.Scan.{MessageInfo, Index, find, is_some, add_service, add_rpc, add_message}
use zctl.Rpc.Desc.Fields.{FieldSig}

-- The rpc stands in the map of the service.
unfoldable pub has_rpc : Text → Text → List (Text × List Text) → Bool
has_rpc k m rpcs = elim (find k rpcs) [ none ↦ false | some ms ↦ text_mem m ms ]

-- Every service, rpc and message of the first index is in the second, the messages as they were.
pub record Kept (i j : Index) : Type 0 where
  pub services : (k : Text) → is_some (find k i.rpcs) ≡ true → is_some (find k j.rpcs) ≡ true
  pub methods : (k m : Text) → has_rpc k m i.rpcs ≡ true → has_rpc k m j.rpcs ≡ true
  pub messages :
      (k : Text) (info : MessageInfo)
      → find k i.messages ≡ some info
      → find k j.messages ≡ some info

pub Kept-refl : (i : Index) → Kept i i
Kept-refl i = record { services = λ k h. h; methods = λ k m h. h; messages = λ k info h. h }

pub Kept-trans : (i j k : Index) → Kept i j → Kept j k → Kept i k
Kept-trans i j k a b = record {
  services = λ n h. b.services n (a.services n h);
  methods = λ n m h. b.methods n m (a.methods n m h);
  messages = λ n info h. b.messages n info (a.messages n info h);
}

find-add_service :
    (name k : Text) (rpcs : List (Text × List Text))
    → find k (add_service name rpcs)
      ≡ (if text_eq name k && not (is_some (find name rpcs)) then some [] else find k rpcs)
unfolding add_service find
find-add_service name k rpcs = elim (Bool-cases (is_some (find name rpcs))) [
  | inl e ↦ rw e (ground arith)
  | inr e ↦ rw e (ground arith)
]

abbrev with_method : Bool → Text → Option (List Text) → Option (List Text)
with_method here name none = none
with_method here name (some ms) = some (if here then name ∷ ms else ms)

find-add_rpc :
    (current name k : Text) (rpcs : List (Text × List Text))
    → find k (add_rpc current name rpcs) ≡ with_method (text_eq current k) name (find k rpcs)
unfolding add_rpc find
find-add_rpc current name k [] = refl
find-add_rpc current name k ((c, ms) ∷ rpcs) = ground (
  arith,
  find-add_rpc current name k rpcs,
  text_eq_iff c current,
  text_eq_iff c k,
  text_eq_iff current k,
)

pub add_service-Kept :
    (name : Text) (i : Index) → Kept i (record i { rpcs = add_service name i.rpcs })
unfolding has_rpc
add_service-Kept name i = record {
  services = λ k h. ground (arith, h, find-add_service name k i.rpcs);
  methods = λ k m h. ground (arith, h, find-add_service name k i.rpcs, text_eq_iff name k);
  messages = λ k info h. h;
}

pub add_service-find :
    (name : Text) (rpcs : List (Text × List Text))
    → is_some (find name (add_service name rpcs)) ≡ true
add_service-find name rpcs = ground (arith, find-add_service name name rpcs, text_eq_iff name name)

pub add_rpc-Kept :
    (current name : Text) (i : Index) → Kept i (record i { rpcs = add_rpc current name i.rpcs })
unfolding has_rpc text_mem
add_rpc-Kept current name i = record {
  services = λ k h. ground (arith, h, find-add_rpc current name k i.rpcs);
  methods = λ k m h. ground (arith, h, find-add_rpc current name k i.rpcs);
  messages = λ k info h. h;
}

pub add_message-Kept :
    (rel_path name : Text) (fields : List FieldSig) (i : Index)
    → Kept i (add_message rel_path name fields i)
unfolding add_message find
add_message-Kept rel_path name fields i = elim (Option-cases (find name i.messages)) [
  | inr (info, e) ↦ rw (e, is_some, if◌then◌else◌) (Kept-refl i)
  | inl e ↦
      rw (e, is_some, if◌then◌else◌)
        (record {
          services = λ k h. h;
          methods = λ k m h. h;
          messages = λ k info h. ground (arith, h, e, text_eq_iff name k);
        })
]
