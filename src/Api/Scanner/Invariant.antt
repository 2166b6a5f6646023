-- ===== src/Api/Scanner/Invariant.antt =====
-- What holds of a scanner between two calls, and that the primitive moves keep it.
use zctl.Base.{
  ℕ, zero, suc, ◌+◌, ◌-◌, ◌≤◌, ◌<◌, Bool, false, List, [], ◌∷◌, ◌++◌, ◌≡◌, ◌≢◌, refl, arith, ◌==◌,
  length, get_or, length-append, Bool-cases, inl, inr,
}
use zctl.Base.Int.{ℤ, pos, pos_part, neg_part}
use zctl.Api.Scanner.{Scanner, rune_at, read_rune, line_start, mark_line, read_while}

pub record IsValid (s : Scanner) : Type 0 where
  pub size_is : s.size ≡ length s.source
  pub next_is : s.read_position ≡ s.position + 1
  pub ch_is : s.ch ≡ rune_at s s.position
  pub has_line : 1 ≤ length s.lines
  -- the line began before the current rune
  pub line_before : pos_part (line_start s) + 1 ≤ s.position + neg_part (line_start s)

-- `t` is a valid later state on the same input.
pub record Later (s t : Scanner) : Type 0 where
  pub valid : IsValid t
  pub source_is : t.source ≡ s.source
  pub size_is : t.size ≡ s.size
  pub filename_is : t.filename ≡ s.filename
  pub moved : s.position ≤ t.position

pub Later-refl : {s : Scanner} → IsValid s → Later s s
Later-refl v = ground arith

pub Later-trans : {s t u : Scanner} → Later s t → Later t u → Later s u
Later-trans p q = ground arith

-- A rune other than 0 stands inside the source.
pub position-lt-size : (s : Scanner) → IsValid s → s.ch ≢ 0 → s.position < s.size
position-lt-size s v h = ground arith

pub position-read_rune : (s : Scanner) → IsValid s → (read_rune s).position ≡ s.position + 1
unfolding read_rune
position-read_rune s v = v.next_is

pub size-read_rune : (s : Scanner) → (read_rune s).size ≡ s.size
unfolding read_rune
size-read_rune s = refl

pub read_rune-Later : (s : Scanner) → IsValid s → Later s (read_rune s)
unfolding read_rune
read_rune-Later s v = ground arith

get_or-append : (xs : List ℤ) (x d : ℤ) → get_or (xs ++ x ∷ []) (length xs) d ≡ x
get_or-append [] x d = refl
get_or-append (y ∷ xs) x d = get_or-append xs x d

last-append : (xs : List ℤ) (x d : ℤ) → get_or (xs ++ x ∷ []) (length (xs ++ x ∷ []) - 1) d ≡ x
last-append xs x d =
    let n : length (xs ++ x ∷ []) - 1 ≡ length xs = omega (arith, length-append xs (x ∷ [])) in
    rw n (get_or-append xs x d)

-- `isWhiteSpace` records a line and the loop then reads past its newline.
pub read_rune-mark_line-Later : (s : Scanner) → IsValid s → Later s (read_rune (mark_line s))
unfolding read_rune mark_line
read_rune-mark_line-Later s v = elim (Bool-cases (s.ch == b'\n')) [
  | inl newline ↦ rw newline (
      ground (
        arith,
        last-append s.lines (pos s.position) (pos 0),
        length-append s.lines (pos s.position ∷ []),
      ))
  | inr other ↦ rw other (read_rune-Later s v)
]

-- A loop over runes that pass a test ends at a rune that does not.
pub read_while-Later :
    (test : ℕ → Bool) (f : ℕ) (s : Scanner) → IsValid s → Later s (read_while test f s)
unfolding read_while
read_while-Later test zero s v = Later-refl v
read_while-Later test (suc f) s v = ground (
  arith,
  Later-refl v,
  Later-trans (read_rune-Later s v)
      (read_while-Later test f (read_rune s) (read_rune-Later s v).valid),
)

pub read_while-stops :
    (test : ℕ → Bool) (f : ℕ) (s : Scanner)
    → IsValid s
    → test 0 ≡ false
    → s.size < s.position + f
    → test (read_while test f s).ch ≡ false
unfolding read_while
read_while-stops test zero s v h e = ground arith
read_while-stops test (suc f) s v h e = ground (
  arith,
  read_while-stops test f (read_rune s) (read_rune-Later s v).valid h,
  position-read_rune s v,
  size-read_rune s,
)
