-- ===== src/Api/Scanner/Durations.antt =====
-- The scanning methods for integers and durations, each behind the ones that it calls.
use zctl.Base.{ℕ, Bool, not, ◌||◌, ◌==◌, if◌then◌else◌, is_digit}
use zctl.Api.Token.{int, duration}
use zctl.Api.Scanner.{Scanner, Scanned, read_rune, token_from, illegal_token, read_while, rounds}

-- The rune of the micro sign, U+00B5.
abbrev pub micro : ℕ
micro = 0xB5

-- `for s.isDigit(s.ch) { s.readRune() }`
unfoldable pub read_digits : Scanner → Scanner
read_digits s = read_while is_digit (rounds s) s

unfoldable pub scan_nanosecond : ℕ → Scanner → Scanned
scan_nanosecond start s =
    let s' = read_rune s in
    if not (s'.ch == b's') then illegal_token s' else token_from duration start (read_rune s')

-- `if s.ch != 'n' { … }` behind the digits.
unfoldable pub micro_rest : ℕ → Scanner → Scanned
micro_rest start s = if not (s.ch == b'n') then illegal_token s else scan_nanosecond start s

unfoldable pub scan_microsecond : ℕ → Scanner → Scanned
scan_microsecond start s =
    let s1 = read_rune s in
    let s2 = read_rune s1 in
    if not (s1.ch == b's')
    then illegal_token s1
    else if not (is_digit s2.ch)
    then token_from duration start s2
    else micro_rest start (read_digits s2)

-- The `switch s.ch` behind the digits.
unfoldable pub milli_rest : ℕ → Scanner → Scanned
milli_rest start s =
    if s.ch == b'n'
    then scan_nanosecond start s
    else if s.ch == micro
    then scan_microsecond start s
    else illegal_token s

unfoldable pub scan_millisecond : ℕ → Scanner → Scanned
scan_millisecond start s =
    let s1 = read_rune s in
    if not (is_digit s1.ch) then token_from duration start s1 else milli_rest start (read_digits s1)

-- `case 'm'` of the switches of `scanSecond` and `scanMinute`.
unfoldable pub milli_only : ℕ → Scanner → Scanned
milli_only start s =
    let s1 = read_rune s in
    if not (s1.ch == b's') then illegal_token s1 else scan_millisecond start s1

unfoldable pub second_rest : ℕ → Scanner → Scanned
second_rest start s =
    if s.ch == b'n'
    then scan_nanosecond start s
    else if s.ch == micro
    then scan_microsecond start s
    else if s.ch == b'm'
    then milli_only start s
    else illegal_token s

unfoldable pub scan_second : ℕ → Scanner → Scanned
scan_second start s =
    let s1 = read_rune s in
    if not (is_digit s1.ch)
    then token_from duration start s1
    else second_rest start (read_digits s1)

unfoldable pub minute_rest : ℕ → Scanner → Scanned
minute_rest start s =
    if s.ch == b'n'
    then scan_nanosecond start s
    else if s.ch == micro
    then scan_microsecond start s
    else if s.ch == b'm'
    then milli_only start s
    else if s.ch == b's'
    then scan_second start s
    else illegal_token s

unfoldable pub scan_minute : ℕ → Scanner → Scanned
scan_minute start s =
    if not (is_digit s.ch) then token_from duration start s else minute_rest start (read_digits s)

unfoldable pub scan_millisecond_or_minute : ℕ → Scanner → Scanned
scan_millisecond_or_minute start s =
    let s1 = read_rune s in
    if not (s1.ch == b's')
    then if s1.ch == 0 || not (is_digit s1.ch)
      then token_from duration start s1
      else scan_minute start s1
    else scan_millisecond start s1

unfoldable pub hour_rest : ℕ → Scanner → Scanned
hour_rest start s =
    if s.ch == b'n'
    then scan_nanosecond start s
    else if s.ch == micro
    then scan_microsecond start s
    else if s.ch == b'm'
    then scan_millisecond_or_minute start s
    else if s.ch == b's'
    then scan_second start s
    else illegal_token s

unfoldable pub scan_hour : ℕ → Scanner → Scanned
scan_hour start s =
    let s1 = read_rune s in
    if not (is_digit s1.ch) then token_from duration start s1 else hour_rest start (read_digits s1)

unfoldable pub scan_duration : ℕ → Scanner → Scanned
scan_duration start s =
    if s.ch == b'n'
    then scan_nanosecond start s
    else if s.ch == micro
    then scan_microsecond start s
    else if s.ch == b'm'
    then scan_millisecond_or_minute start s
    else if s.ch == b's'
    then scan_second start s
    else if s.ch == b'h'
    then scan_hour start s
    else illegal_token s

unfoldable pub is_unit : ℕ → Bool
is_unit c = c == b'n' || c == micro || c == b'm' || c == b's' || c == b'h'

-- The `switch s.ch` of `scanIntOrDuration`, behind its digits.
unfoldable pub int_rest : ℕ → Scanner → Scanned
int_rest start s = if is_unit s.ch then scan_duration start s else token_from int start s

unfoldable pub scan_int_or_duration : Scanner → Scanned
scan_int_or_duration s = int_rest s.position (read_digits s)
