-- ===== src/Rpc/Imports/Reach.antt =====
-- Which files a file imports, directly and through others.
use zctl.Base.{List, [], ◌∷◌, some, Text, ◌≡◌, ◌⊎◌}
use zctl.Rpc.Imports.{Files, Visit, Walked, done, failed, out_of_fuel, and_then, target}

module _ (files : Files) (proto_paths : List Text) where
  -- One of the import statements stands for the file.
  abbrev pub Names : List Text → Text → Type 0
  Names [] b = ⊥
  Names (f ∷ fs) b = (target files proto_paths f ≡ some b) ⊎ Names fs b

  -- The file `b` is `a`, or is imported by a file that stands in this relation to `a`.
  pub data Reach (a : Text) : Text → Type 0 where
    here : Reach a a
    there :
        {b c : Text} (fs : List Text)
        → Reach a b
        → files.imports_of b ≡ some fs
        → Names fs c
        → Reach a c

-- What holds of the state that a walk ends in, and what of a failure.
abbrev pub Ensures : (Visit → Type 0) → Type 0 → Walked → Type 0
Ensures P F (done v) = P v
Ensures P F failed = F
Ensures P F out_of_fuel = Unit

pub and_then-Ensures :
    (P Q : Visit → Type 0) (F : Type 0) (r : Walked) (next : Visit → Walked)
    → Ensures P F r
    → ((v : Visit) → P v → Ensures Q F (next v))
    → Ensures Q F (and_then r next)
and_then-Ensures P Q F (done v) next h k = k v h
and_then-Ensures P Q F failed next h k = h
and_then-Ensures P Q F out_of_fuel next h k = tt

pub Ensures-weaken :
    (P Q : Visit → Type 0) (F : Type 0) (r : Walked)
    → ((v : Visit) → P v → Q v)
    → Ensures P F r
    → Ensures Q F r
Ensures-weaken P Q F (done v) h p = h v p
Ensures-weaken P Q F failed h p = p
Ensures-weaken P Q F out_of_fuel h p = tt
