-- ===== src/Api/Scanner/Runs.antt =====
-- A scanner from `NewScanner` on, under any sequence of calls of `NextToken`.
use zctl.Base.{ℕ, ◌≤◌, [], ◌∷◌, some, Text, ◌≡◌, ◌≢◌, sym, subst, arith, inl, inr}
use zctl.Base.Int.{◌-ℤ◌, pos_part}
use zctl.Api.Token.{Token}
use zctl.Api.Scanner.{
  Scanner, Scanned, ScanError, scanned, failed, panicked, out_of_fuel, new_scanner, read_rune,
  skip_white_space, new_position, line_count,
}
use zctl.Api.Scanner.Invariant.{IsValid, Later, Later-refl, Later-trans}
use zctl.Api.Scanner.Reading.{Ends}
use zctl.Api.Scanner.Next.{next_token}
use zctl.Api.Scanner.Total.Switch.{Steps, next_token-Steps}

-- A call of `NextToken`, with a token or an error.
pub data Call (s : Scanner) (t : Scanner) : Type 0 where
  token : (tok : Token) → next_token s ≡ scanned tok t → Call s t
  error : (e : ScanError) → next_token s ≡ failed e t → Call s t

pub data Calls (s : Scanner) : Scanner → Type 0 where
  here : Calls s s
  next : {t u : Scanner} → Calls s t → Call t u → Calls s u

pub new_scanner-IsValid :
    (base source : Text) (s : Scanner) → new_scanner base source ≡ some s → IsValid s
unfolding new_scanner read_rune
new_scanner-IsValid base [] s h = cc
new_scanner-IsValid base (c ∷ cs) s h = ground arith

-- What a call ends in is later than its start, and no fault.
abbrev IsLater : Scanner → Scanned → Type 0
IsLater s (scanned t s') = Later s s'
IsLater s (failed e s') = Later s s'
IsLater s panicked = ⊥
IsLater s out_of_fuel = ⊥

Ends-IsLater : (s : Scanner) (p : ℕ) (r : Scanned) → Ends s p r → IsLater s r
Ends-IsLater s p (scanned t s') e = e.0
Ends-IsLater s p (failed x s') e = e
Ends-IsLater s p panicked e = e
Ends-IsLater s p out_of_fuel e = e

Steps-IsLater : (s w : Scanner) (r : Scanned) → Later s w → Steps s w r → IsLater s r
Steps-IsLater s w r l (inl (z, e)) = subst (IsLater s) (sym e) l
Steps-IsLater s w r l (inr (inl (z, e))) = subst (IsLater s) (sym e) l
Steps-IsLater s w r l (inr (inr (n, z, e))) = Ends-IsLater s w.position r e

pub next_token-IsLater : (s : Scanner) → IsValid s → IsLater s (next_token s)
next_token-IsLater s v =
    let steps = next_token-Steps s v in
    Steps-IsLater s (skip_white_space s) (next_token s) steps.0 steps.2

Call-Later : (s t : Scanner) → IsValid s → Call s t → Later s t
Call-Later s t v (token tok h) = subst (IsLater s) h (next_token-IsLater s v)
Call-Later s t v (error e h) = subst (IsLater s) h (next_token-IsLater s v)

Calls-Later : {s t : Scanner} → IsValid s → Calls s t → Later s t
Calls-Later v here = Later-refl v
Calls-Later v (next {t} {u} cs c) =
    let l = Calls-Later v cs in Later-trans l (Call-Later t u l.valid c)

not-panicked : (s : Scanner) (r : Scanned) → IsLater s r → (r ≢ panicked) × (r ≢ out_of_fuel)
not-panicked s (scanned t s') l = ((λ e. cc), (λ e. cc))
not-panicked s (failed x s') l = ((λ e. cc), (λ e. cc))
not-panicked s panicked l = absurd l
not-panicked s out_of_fuel l = absurd l

-- Whatever calls were made on a scanner for some input, it still reads that input, has not gone
-- back, gives columns from 1 on, and its next call neither panics nor runs out of rounds.
pub Calls-safe :
    (base source : Text) (s : Scanner) {t : Scanner}
    → new_scanner base source ≡ some s
    → Calls s t
    → (t.source ≡ s.source)
      × (s.position ≤ t.position)
      × (1 ≤ pos_part (new_position t t.position).column)
      × (next_token t ≢ panicked)
      × (next_token t ≢ out_of_fuel)
unfolding new_position line_count ◌-ℤ◌
Calls-safe base source s {t} h cs =
    let l = Calls-Later (new_scanner-IsValid base source s h) cs in
    let fine = not-panicked t (next_token t) (next_token-IsLater t l.valid) in
    (l.source_is, l.moved, ground (arith, l.valid.line_before), fine.0, fine.1)
