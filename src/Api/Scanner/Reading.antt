-- ===== src/Api/Scanner/Reading.antt =====
-- A scanning method part way through its token, and what a method has to end in.
use zctl.Base.{
  ◌⊎◌, inr, ◌==◌, if◌then◌else◌, not, ℕ, zero, suc, ◌+◌, ◌-◌, ◌≤◌, ◌<◌, Bool, true, false, [], ◌∷◌,
  some, Text, ◌≡◌, ◌≢◌, refl, arith, length, get_or, take, drop,
}
use zctl.Api.Token.{TokenType, Token, illegal, dot, eof}
use zctl.Api.Scanner.{
  Scanner, Scanned, scanned, failed, panicked, out_of_fuel, read_rune, slice, token_from, new_token,
  illegal_token, read_while,
}
use zctl.Api.Scanner.Invariant.{
  IsValid, Later, Later-trans, read_rune-Later, position-read_rune, position-lt-size,
}

-- Tokens of these types may have consumed more, or less, than their text.
abbrev pub is_exact : TokenType → Bool
is_exact illegal = false
is_exact dot = false
is_exact eof = false
is_exact _ = true

-- The text of the token is what stands between `start` and the place where `s` goes on.
abbrev pub Covers : ℕ → Token → Scanner → Type 0
Covers start t s = (is_exact t.type ≡ false) ⊎ (slice s start s.position ≡ some t.text)

-- A method that began at `start` on the input of `b` neither panicked nor ran out of rounds: it gave
-- a token with the text that was read and went on past `start`, or an error, in a state that is not
-- before `b`.
abbrev pub Ends : Scanner → ℕ → Scanned → Type 0
Ends b start (scanned t s) = Later b s × (start < s.position) × Covers start t s
Ends b start (failed e s) = Later b s
Ends b start panicked = ⊥
Ends b start out_of_fuel = ⊥

pub record Reading (b : Scanner) (start : ℕ) (s : Scanner) : Type 0 where
  pub later : Later b s
  pub begun : start < s.position
  pub inside : s.position ≤ s.size

pub Reading-begin :
    {b : Scanner} (s : Scanner) → Later b s → s.ch ≢ 0 → Reading b s.position (read_rune s)
Reading-begin s l h = record {
  later = Later-trans l (read_rune-Later s l.valid);
  begun = omega (arith, position-read_rune s l.valid);
  inside = omega (
    arith,
    position-read_rune s l.valid,
    position-lt-size s l.valid h,
    (read_rune-Later s l.valid).size_is,
  );
}

pub read_rune-Reading :
    {b : Scanner} {start : ℕ} (s : Scanner)
    → Reading b start s
    → s.ch ≢ 0
    → Reading b start (read_rune s)
read_rune-Reading {b} {start} s r h =
    let next = Reading-begin s r.later h in
    record { later = next.later; begun = omega (arith, next.begun, r.begun); inside = next.inside }

pub read_while-Reading :
    {b : Scanner} {start : ℕ} (test : ℕ → Bool) (f : ℕ) (s : Scanner)
    → test 0 ≡ false
    → Reading b start s
    → Reading b start (read_while test f s)
unfolding read_while
read_while-Reading test zero s h r = r
read_while-Reading {b} {start} test (suc f) s h r = ground (
  arith,
  read_while-Reading {b = b} {start = start} test f (read_rune s) h,
  read_rune-Reading s r,
)

pub token_from-Ends :
    {b : Scanner} {start : ℕ} (tp : TokenType) (s : Scanner)
    → Reading b start s
    → Ends b start (token_from tp start s)
unfolding token_from
token_from-Ends tp s r = ground (arith, r.later.valid.size_is)

pub illegal_token-Ends :
    {b : Scanner} {start : ℕ} (s : Scanner) → Reading b start s → Ends b start (illegal_token s)
unfolding illegal_token
illegal_token-Ends s r = ground (
  arith,
  read_rune-Later s r.later.valid,
  position-read_rune s r.later.valid,
  Later-trans r.later (read_rune-Later s r.later.valid),
)

take-drop_one : (xs : Text) (i : ℕ) → i < length xs → take 1 (drop i xs) ≡ get_or xs i 0 ∷ []
take-drop_one [] i h = elim h [ ]
take-drop_one (x ∷ xs) zero h = refl
take-drop_one (x ∷ xs) (suc i) h = take-drop_one xs i (omega arith)

pub slice_one :
    (s : Scanner) → IsValid s → s.ch ≢ 0 → slice s s.position (s.position + 1) ≡ some (s.ch ∷ [])
slice_one s v h =
    let e : s.position + 1 - s.position ≡ 1 = omega arith in
    rw e (
      ground (arith, position-lt-size s v h, take-drop_one s.source s.position, v.size_is, v.ch_is))

pub new_token-Ends :
    {b : Scanner} (tp : TokenType) (s : Scanner)
    → Later b s
    → s.ch ≢ 0
    → Ends b s.position (new_token tp s)
unfolding new_token
new_token-Ends tp s l h =
    let r = Reading-begin s l h in
    (
      r.later,
      r.begun,
      (inr (
          rw (position-read_rune s l.valid, (read_rune-Later s l.valid).source_is)
            (slice_one s l.valid h))),
    )

pub not_zero : (c d : ℕ) → d ≢ 0 → (c == d) ≡ true → c ≢ 0
not_zero c d h e = ground arith

pub ne_zero : (c : ℕ) → (c == 0) ≡ false → c ≢ 0
ne_zero c e = ground arith

-- Both branches of a test end.
pub Ends-if :
    (b : Scanner) (start : ℕ) (c : Bool) (x y : Scanned)
    → (c ≡ true → Ends b start x)
    → (c ≡ false → Ends b start y)
    → Ends b start (if c then x else y)
Ends-if b start true x y f g = f refl
Ends-if b start false x y f g = g refl

pub not-true : (c : Bool) → not c ≡ false → c ≡ true
not-true true h = refl
not-true false h = cc
