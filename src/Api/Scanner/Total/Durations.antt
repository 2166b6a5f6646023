-- ===== src/Api/Scanner/Total/Durations.antt =====
-- Integers and durations end; `s` stands where the method is called, behind a first rune.
use zctl.Base.{ℕ, Bool, ◌≡◌, ◌≢◌, refl, true, false, arith, ◌==◌, is_digit}
use zctl.Api.Token.{int, duration}
use zctl.Api.Scanner.{Scanner, read_rune, token_from, read_while, rounds}
use zctl.Api.Scanner.Invariant.{Later}
use zctl.Api.Scanner.Reading.{
  Ends, Reading, Reading-begin, read_rune-Reading, read_while-Reading, token_from-Ends,
  illegal_token-Ends, Ends-if, not_zero, not-true,
}
use zctl.Api.Scanner.Durations.{
  micro, read_digits, scan_nanosecond, micro_rest, scan_microsecond, milli_rest, scan_millisecond,
  milli_only, second_rest, scan_second, minute_rest, scan_minute, scan_millisecond_or_minute,
  hour_rest, scan_hour, scan_duration, is_unit, int_rest, scan_int_or_duration,
}

-- A rune that a method tests for is no end of input.
is_digit-ne_zero : (c : ℕ) → is_digit c ≡ true → c ≢ 0
is_digit-ne_zero c h = ground arith

is_unit-ne_zero : (c : ℕ) → is_unit c ≡ true → c ≢ 0
unfolding is_unit
is_unit-ne_zero c h = ground arith

module _ {b : Scanner} {start : ℕ} where
  read_digits-Reading : (s : Scanner) → Reading b start s → Reading b start (read_digits s)
  unfolding read_digits
  read_digits-Reading s r = read_while-Reading is_digit (rounds s) s refl r

  -- The two ways in which every method below may end.
  done : (s : Scanner) → Reading b start s → Ends b start (token_from duration start s)
  done s r = token_from-Ends duration s r

  module _ (s : Scanner) (r : Reading b start s) (h : s.ch ≢ 0) where
    abbrev r1 : Reading b start (read_rune s)
    r1 = read_rune-Reading s r h

    scan_nanosecond-Ends : Ends b start (scan_nanosecond start s)
    unfolding scan_nanosecond
    scan_nanosecond-Ends =
        Ends-if _ _ _ _ _ (λ _. illegal_token-Ends (read_rune s) r1)
          (λ e. done _ (read_rune-Reading _ r1 (not_zero _ b's' (omega arith) (not-true _ e))))

  micro_rest-Ends : (s : Scanner) → Reading b start s → Ends b start (micro_rest start s)
  unfolding micro_rest
  micro_rest-Ends s r =
      Ends-if _ _ _ _ _ (λ _. illegal_token-Ends s r)
        (λ e. scan_nanosecond-Ends s r (not_zero _ b'n' (omega arith) (not-true _ e)))

  scan_microsecond-Ends :
      (s : Scanner) → Reading b start s → s.ch ≢ 0 → Ends b start (scan_microsecond start s)
  unfolding scan_microsecond
  scan_microsecond-Ends s r h =
      Ends-if _ _ _ _ _ (λ _. illegal_token-Ends _ (r1 s r h))
        λ e.
          let r2 = read_rune-Reading _ (r1 s r h) (not_zero _ b's' (omega arith) (not-true _ e)) in
          Ends-if _ _ _ _ _ (λ _. done _ r2) (λ _. micro_rest-Ends _ (read_digits-Reading _ r2))

  -- The last two cases of the switches of the longer units.
  module _ (s : Scanner) (r : Reading b start s) where
    nano-Ends : (s.ch == b'n') ≡ true → Ends b start (scan_nanosecond start s)
    nano-Ends e = scan_nanosecond-Ends s r (not_zero _ b'n' (omega arith) e)

    micro-Ends : (s.ch == micro) ≡ true → Ends b start (scan_microsecond start s)
    micro-Ends e = scan_microsecond-Ends s r (not_zero _ micro (omega arith) e)

    milli_rest-Ends : Ends b start (milli_rest start s)
    unfolding milli_rest
    milli_rest-Ends =
        Ends-if _ _ _ _ _ nano-Ends
          (λ _. Ends-if _ _ _ _ _ micro-Ends (λ _. illegal_token-Ends s r))

  scan_millisecond-Ends :
      (s : Scanner) → Reading b start s → s.ch ≢ 0 → Ends b start (scan_millisecond start s)
  unfolding scan_millisecond
  scan_millisecond-Ends s r h =
      Ends-if _ _ _ _ _ (λ _. done _ (r1 s r h))
        (λ _. milli_rest-Ends _ (read_digits-Reading _ (r1 s r h)))

  module _ (s : Scanner) (r : Reading b start s) where
    milli_only-Ends : (s.ch == b'm') ≡ true → Ends b start (milli_only start s)
    unfolding milli_only
    milli_only-Ends e =
        let q = r1 s r (not_zero _ b'm' (omega arith) e) in
        Ends-if _ _ _ _ _ (λ _. illegal_token-Ends _ q)
          (λ e'. scan_millisecond-Ends _ q (not_zero _ b's' (omega arith) (not-true _ e')))

    second_rest-Ends : Ends b start (second_rest start s)
    unfolding second_rest
    second_rest-Ends = Ends-if _ _ _ _ _ (nano-Ends s r) (λ _.
        Ends-if _ _ _ _ _ (micro-Ends s r)
          (λ _. Ends-if _ _ _ _ _ milli_only-Ends (λ _. illegal_token-Ends s r)))

  scan_second-Ends :
      (s : Scanner) → Reading b start s → s.ch ≢ 0 → Ends b start (scan_second start s)
  unfolding scan_second
  scan_second-Ends s r h =
      Ends-if _ _ _ _ _ (λ _. done _ (r1 s r h))
        (λ _. second_rest-Ends _ (read_digits-Reading _ (r1 s r h)))

  second-Ends :
      (s : Scanner) → Reading b start s → (s.ch == b's') ≡ true → Ends b start (scan_second start s)
  second-Ends s r e = scan_second-Ends s r (not_zero _ b's' (omega arith) e)

  minute_rest-Ends : (s : Scanner) → Reading b start s → Ends b start (minute_rest start s)
  unfolding minute_rest
  minute_rest-Ends s r = Ends-if _ _ _ _ _ (nano-Ends s r) (λ _.
      Ends-if _ _ _ _ _ (micro-Ends s r) (λ _.
        Ends-if _ _ _ _ _ (milli_only-Ends s r)
          (λ _. Ends-if _ _ _ _ _ (second-Ends s r) (λ _. illegal_token-Ends s r))))

  scan_minute-Ends : (s : Scanner) → Reading b start s → Ends b start (scan_minute start s)
  unfolding scan_minute
  scan_minute-Ends s r =
      Ends-if _ _ _ _ _ (λ _. done s r) (λ _. minute_rest-Ends _ (read_digits-Reading s r))

  scan_millisecond_or_minute-Ends :
      (s : Scanner)
      → Reading b start s
      → s.ch ≢ 0
      → Ends b start (scan_millisecond_or_minute start s)
  unfolding scan_millisecond_or_minute
  scan_millisecond_or_minute-Ends s r h =
      let q = r1 s r h in
      Ends-if _ _ _ _ _ (λ _. Ends-if _ _ _ _ _ (λ _. done _ q) (λ _. scan_minute-Ends _ q))
        (λ e. scan_millisecond-Ends _ q (not_zero _ b's' (omega arith) (not-true _ e)))

  minute-Ends :
      (s : Scanner)
      → Reading b start s
      → (s.ch == b'm') ≡ true
      → Ends b start (scan_millisecond_or_minute start s)
  minute-Ends s r e = scan_millisecond_or_minute-Ends s r (not_zero _ b'm' (omega arith) e)

  hour_rest-Ends : (s : Scanner) → Reading b start s → Ends b start (hour_rest start s)
  unfolding hour_rest
  hour_rest-Ends s r = Ends-if _ _ _ _ _ (nano-Ends s r) (λ _.
      Ends-if _ _ _ _ _ (micro-Ends s r) (λ _.
        Ends-if _ _ _ _ _ (minute-Ends s r)
          (λ _. Ends-if _ _ _ _ _ (second-Ends s r) (λ _. illegal_token-Ends s r))))

  scan_hour-Ends : (s : Scanner) → Reading b start s → s.ch ≢ 0 → Ends b start (scan_hour start s)
  unfolding scan_hour
  scan_hour-Ends s r h =
      Ends-if _ _ _ _ _ (λ _. done _ (r1 s r h))
        (λ _. hour_rest-Ends _ (read_digits-Reading _ (r1 s r h)))

  scan_duration-Ends : (s : Scanner) → Reading b start s → Ends b start (scan_duration start s)
  unfolding scan_duration
  scan_duration-Ends s r = Ends-if _ _ _ _ _ (nano-Ends s r) (λ _.
      Ends-if _ _ _ _ _ (micro-Ends s r) (λ _. Ends-if _ _ _ _ _ (minute-Ends s r) (λ _.
        Ends-if _ _ _ _ _ (second-Ends s r) (λ _.
          Ends-if _ _ _ _ _ (λ e. scan_hour-Ends s r (not_zero _ b'h' (omega arith) e))
            (λ _. illegal_token-Ends s r)))))

  int_rest-Ends : (s : Scanner) → Reading b start s → Ends b start (int_rest start s)
  unfolding int_rest
  int_rest-Ends s r = Ends-if _ _ _ _ _ (λ _. scan_duration-Ends s r) (λ _. token_from-Ends int s r)

-- A loop whose first round is made reads on behind a first rune.
pub read_while-begin :
    {b : Scanner} (test : ℕ → Bool) (s : Scanner)
    → Later b s
    → test 0 ≡ false
    → test s.ch ≡ true
    → Reading b s.position (read_while test (rounds s) s)
unfolding read_while
read_while-begin {b} test s l z h =
    rw (h, read_while)
      (read_while-Reading test s.size (read_rune s) z (Reading-begin s l (λ e. ground arith)))

pub scan_int_or_duration-Ends :
    {b : Scanner} (s : Scanner)
    → Later b s
    → is_digit s.ch ≡ true
    → Ends b s.position (scan_int_or_duration s)
unfolding scan_int_or_duration read_digits
scan_int_or_duration-Ends s l h = int_rest-Ends _ (read_while-begin is_digit s l refl h)
