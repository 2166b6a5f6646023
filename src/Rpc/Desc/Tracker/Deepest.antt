-- ===== src/Rpc/Desc/Tracker/Deepest.antt =====
-- The order in which a rollback cleans directories: the longest path first.
use mathlib.Core.List.{Perm, Permᴰ}
use mathlib.Core.List.Permᴰ
use zctl.Base.{
  ◌≤◌, true, false, List, [], ◌∷◌, Text, length, ltb, All, if◌then◌else◌, ◌≡◌, refl, arith,
  Bool-cases, inl, inr, subst, sym,
}
use zctl.Base.Perms.{Perm_same, Perm_swapped, Perm_kept, All-perm}
use zctl.Rpc.Desc.Tracker.{exchange, sort_rounds, longest_first, byte_len}

-- No path has more bytes than one before it.
abbrev pub IsDescending : List Text → Type 0
IsDescending [] = Unit {0}
IsDescending (d ∷ ds) = All (λ e. byte_len e ≤ byte_len d) ds × IsDescending ds

exchange-perm : (d : Text) (ds : List Text) → Permᴰ ((exchange d ds).0 ∷ (exchange d ds).1) (d ∷ ds)
unfolding exchange
exchange-perm d [] = Perm_same _
exchange-perm d (e ∷ ds) = elim (Bool-cases (ltb (byte_len d) (byte_len e))) [
  | inl h ↦
      rw (h, if◌then◌else◌) (Permᴰ.trans (Perm_swapped _ _ _) (Perm_kept d (exchange-perm e ds)))
  | inr h ↦
      rw (h, if◌then◌else◌)
        (Permᴰ.trans (Permᴰ.trans (Perm_swapped _ _ _) (Perm_kept e (exchange-perm d ds)))
          (Perm_swapped _ _ _))
]

exchange-le : (d : Text) (ds : List Text) → byte_len d ≤ byte_len (exchange d ds).0
unfolding exchange
exchange-le d [] = omega arith
exchange-le d (e ∷ ds) = ground (arith, exchange-le d ds, exchange-le e ds)

-- The first part is the longest.
abbrev Leads : Text × List Text → Type 0
Leads r = All (λ e. byte_len e ≤ byte_len r.0) r.1

exchange-longer :
    (d e : Text) (ds : List Text)
    → ltb (byte_len d) (byte_len e) ≡ true
    → exchange d (e ∷ ds) ≡ ((exchange e ds).0, d ∷ (exchange e ds).1)
unfolding exchange
exchange-longer d e ds h = rw (h, if◌then◌else◌) refl

exchange-kept :
    (d e : Text) (ds : List Text)
    → ltb (byte_len d) (byte_len e) ≡ false
    → exchange d (e ∷ ds) ≡ ((exchange d ds).0, e ∷ (exchange d ds).1)
unfolding exchange
exchange-kept d e ds h = rw (h, if◌then◌else◌) refl

exchange-Leads : (d : Text) (ds : List Text) → Leads (exchange d ds)
exchange-Leads d [] = unfold exchange in tt
exchange-Leads d (e ∷ ds) = elim (Bool-cases (ltb (byte_len d) (byte_len e))) [
  | inl h ↦
      subst Leads (sym (exchange-longer d e ds h))
        (ground (arith, h, exchange-le e ds), exchange-Leads e ds)
  | inr h ↦
      subst Leads (sym (exchange-kept d e ds h))
        (ground (arith, h, exchange-le d ds), exchange-Leads d ds)
]

sort_rounds-perm : (rs ds : List Text) → Permᴰ (sort_rounds rs ds) ds
unfolding sort_rounds
sort_rounds-perm [] ds = Perm_same ds
sort_rounds-perm (r ∷ rs) [] = Permᴰ.nil
sort_rounds-perm (r ∷ rs) (d ∷ ds) =
    Permᴰ.trans (Perm_kept _ (sort_rounds-perm rs (exchange d ds).1)) (exchange-perm d ds)

length-exchange : (d : Text) (ds : List Text) → length (exchange d ds).1 ≡ length ds
unfolding exchange
length-exchange d [] = refl
length-exchange d (e ∷ ds) = ground (arith, length-exchange d ds, length-exchange e ds)

sort_rounds-IsDescending :
    (rs ds : List Text) → length ds ≤ length rs → IsDescending (sort_rounds rs ds)
unfolding sort_rounds
sort_rounds-IsDescending [] [] l = tt
sort_rounds-IsDescending [] (d ∷ ds) l = absurd (omega (arith, l))
sort_rounds-IsDescending (r ∷ rs) [] l = tt
sort_rounds-IsDescending (r ∷ rs) (d ∷ ds) l = (
  All-perm (λ e. byte_len e ≤ byte_len (exchange d ds).0)
      (Permᴰ.symm (sort_rounds-perm rs (exchange d ds).1)) (exchange-Leads d ds),
  sort_rounds-IsDescending rs (exchange d ds).1 (omega (arith, l, length-exchange d ds)),
)

-- The sort of the directories gives the same paths, and none has more bytes than one before it.
pub longest_first-IsDescending :
    (dirs : List Text) → Perm (longest_first dirs) dirs × IsDescending (longest_first dirs)
unfolding longest_first
longest_first-IsDescending dirs =
    (∣ sort_rounds-perm dirs dirs ∣₁, sort_rounds-IsDescending dirs dirs (omega arith))
