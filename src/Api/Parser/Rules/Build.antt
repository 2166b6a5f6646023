-- ===== src/Api/Parser/Rules/Build.antt =====
-- The rules for the ways to build a method: what holds of the parts holds of the whole.
use zctl.Base.{
  ℕ, zero, suc, ◌+◌, ◌≤◌, ◌<◌, Bool, true, false, [], ◌∷◌, ◌≡◌, refl, arith, length, length-append,
}
use zctl.Api.Scanner.Invariant.{IsValid}
use zctl.Api.Parser.{
  Parser, Parse, Parsed, parsed, nil, crashed, no_fuel, ParseError, continue, ◌>>=◌, pure, crash,
  fail, branch, gets,
}
use zctl.Api.Parser.Progress.{left}

-- `d` is how much less is left.
abbrev pub Post : {A : Type 0} → ℕ → Parser → Parsed A → Type 0
Post d p (parsed a q) =
    IsValid q.scanner × (left q + d ≤ left p) × (length p.errors ≤ length q.errors)
Post d p (nil q) = length p.errors < length q.errors
Post d p crashed = Unit
Post d p no_fuel = ⊥

-- In states with less than `n` left.
pub record Runs {A : Type 0} (n : ℕ) (m : Parse A) : Type 0 where
  pub at : (p : Parser) → IsValid p.scanner → left p < n → Post 0 p (m p)

-- The same, and a value comes with something read.
pub record Eats {A : Type 0} (n : ℕ) (m : Parse A) : Type 0 where
  pub at : (p : Parser) → IsValid p.scanner → left p < n → Post 1 p (m p)

module _ {A : Type 0} where
  pub Runs-zero : (m : Parse A) → Runs zero m
  Runs-zero m = record { at = λ p v l. absurd (omega arith) }

  pub Eats-zero : (m : Parse A) → Eats zero m
  Eats-zero m = record { at = λ p v l. absurd (omega arith) }

  pub Post-weaken : (p : Parser) (r : Parsed A) → Post 1 p r → Post 0 p r
  Post-weaken p (parsed a q) h = (h.0, omega arith, h.2)
  Post-weaken p (nil q) h = h
  Post-weaken p crashed h = h
  Post-weaken p no_fuel h = h

  pub Runs-Eats : (n : ℕ) (m : Parse A) → Eats n m → Runs n m
  Runs-Eats n m e = record { at = λ p v l. Post-weaken p (m p) (e.at p v l) }

  pub Runs-pure : (n : ℕ) (a : A) → Runs n (pure a)
  unfolding pure
  Runs-pure n a = record { at = λ p v l. (v, omega arith, omega arith) }

  pub Runs-gets : (n : ℕ) (f : Parser → A) → Runs n (gets f)
  unfolding gets
  Runs-gets n f = record { at = λ p v l. (v, omega arith, omega arith) }

  pub Runs-crash : (n : ℕ) → Runs {A = A} n crash
  unfolding crash
  Runs-crash n = record { at = λ p v l. tt }

  pub Eats-fail : (n : ℕ) (e : Parser → ParseError) → Eats {A = A} n (fail e)
  unfolding fail
  Eats-fail n e = record { at = λ p v l. omega (arith, length-append p.errors (e p ∷ [])) }

  pub Runs-fail : (n : ℕ) (e : Parser → ParseError) → Runs {A = A} n (fail e)
  Runs-fail n e = Runs-Eats n (fail e) (Eats-fail n e)

  pub Post-branch :
      (d : ℕ) (p : Parser) (b : Bool) (r s : Parsed A)
      → (b ≡ true → Post d p r)
      → (b ≡ false → Post d p s)
      → Post d p (elim b [ true ↦ r | false ↦ s ])
  Post-branch d p true r s f g = f refl
  Post-branch d p false r s f g = g refl

  pub Runs-branch :
      (n : ℕ) (t : Parser → Bool) (m k : Parse A) → Runs n m → Runs n k → Runs n (branch t m k)
  unfolding branch
  Runs-branch n t m k f g = record {
    at = λ p v l. Post-branch 0 p (t p) (m p) (k p) (λ e. f.at p v l) (λ e. g.at p v l);
  }

  pub Eats-branch :
      (n : ℕ) (t : Parser → Bool) (m k : Parse A) → Eats n m → Eats n k → Eats n (branch t m k)
  unfolding branch
  Eats-branch n t m k f g = record {
    at = λ p v l. Post-branch 1 p (t p) (m p) (k p) (λ e. f.at p v l) (λ e. g.at p v l);
  }

  Post-then :
      (c d : ℕ) (p q : Parser) (r : Parsed A)
      → left q + c ≤ left p
      → length p.errors ≤ length q.errors
      → Post d q r
      → Post (c + d) p r
  Post-then c d p q (parsed b r) l e h = (h.0, omega arith, omega arith)
  Post-then c d p q (nil r) l e h = omega arith
  Post-then c d p q crashed l e h = h
  Post-then c d p q no_fuel l e h = h

module _ {A B : Type 0} where
  pub Post-continue :
      (c d : ℕ) (p : Parser) (r : Parsed A) (k : A → Parse B)
      → Post c p r
      → ((a : A) (q : Parser) → IsValid q.scanner → left q + c ≤ left p → Post d q (k a q))
      → Post (c + d) p (continue r k)
  Post-continue c d p (parsed a q) k h f = Post-then c d p q (k a q) h.1 h.2 (f a q h.0 h.1)
  Post-continue c d p (nil q) k h f = h
  Post-continue c d p crashed k h f = h
  Post-continue c d p no_fuel k h f = h

  pub Runs-bind :
      (n : ℕ) (m : Parse A) (k : A → Parse B)
      → Runs n m
      → ((a : A) → Runs n (k a))
      → Runs n (m >>= k)
  unfolding ◌>>=◌
  Runs-bind n m k f g = record {
    at = λ p v l. Post-continue 0 0 p (m p) k (f.at p v l) (λ a q w e. (g a).at q w (omega arith));
  }

  pub Eats-bind :
      (n : ℕ) (m : Parse A) (k : A → Parse B)
      → Eats (suc n) m
      → ((a : A) → Runs n (k a))
      → Eats (suc n) (m >>= k)
  unfolding ◌>>=◌
  Eats-bind n m k f g = record {
    at = λ p v l. Post-continue 1 0 p (m p) k (f.at p v l) (λ a q w e. (g a).at q w (omega arith));
  }

  pub Eats-bind_later :
      (n : ℕ) (m : Parse A) (k : A → Parse B)
      → Runs n m
      → ((a : A) → Eats n (k a))
      → Eats n (m >>= k)
  unfolding ◌>>=◌
  Eats-bind_later n m k f g = record {
    at = λ p v l. Post-continue 0 1 p (m p) k (f.at p v l) (λ a q w e. (g a).at q w (omega arith));
  }

  pub Runs-bind-Eats :
      (n : ℕ) (m : Parse A) (k : A → Parse B)
      → Eats (suc n) m
      → ((a : A) → Runs n (k a))
      → Runs (suc n) (m >>= k)
  Runs-bind-Eats n m k f g = Runs-Eats (suc n) (m >>= k) (Eats-bind n m k f g)
