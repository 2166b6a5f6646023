-- ===== src/Api/Values/Quoted.antt =====
-- `RawText` undoes the quotes of the strings that the scanner reads.
use zctl.Base.{inl, inr, ap, ℕ, [], ◌∷◌, ◌++◌, Text, ◌≡◌, ◌⊎◌, arith}
use zctl.Api.Token.{TokenType, Token}
use zctl.Api.Scanner.{Scanner, scanned, new_position}
use zctl.Api.Scanner.Invariant.{IsValid}
use zctl.Api.Scanner.Behind.{rest}
use zctl.Api.Scanner.Literals.{scan_string}
use zctl.Api.Scanner.Strings.{IsPlain, scan_string_closed}
use zctl.Api.Values.{raw_text, trim_suffix}

pub trim_suffix-append : (c : ℕ) (body : Text) → trim_suffix c (body ++ c ∷ []) ≡ body
trim_suffix-append c [] = ground arith
trim_suffix-append c (x ∷ []) = ap (◌∷◌ x) (trim_suffix-append c [])
trim_suffix-append c (x ∷ y ∷ ys) = ap (◌∷◌ x) (trim_suffix-append c (y ∷ ys))

pub raw_text-quoted :
    (delim : ℕ) (body : Text)
    → (delim ≡ b'"') ⊎ (delim ≡ b'`')
    → raw_text (delim ∷ (body ++ delim ∷ [])) ≡ body
unfolding raw_text
raw_text-quoted delim body (inl e) = rw e (trim_suffix-append b'"' body)
raw_text-quoted delim body (inr e) = rw e (trim_suffix-append b'`' body)

-- On a valid state where the rest is a quote or a backquote, a body without that delimiter and
-- without zero runes, the delimiter and a tail, `scanString` gives a token whose raw text is the
-- body, and goes on at the tail.
pub raw_text-scan_string :
    (delim : ℕ) (tp : TokenType) (body tail : Text) (s : Scanner)
    → IsValid s
    → (delim ≡ b'"') ⊎ (delim ≡ b'`')
    → IsPlain delim body
    → rest s ≡ delim ∷ (body ++ (delim ∷ tail))
    → (t : Token) × (u : Scanner) × (scan_string delim tp s ≡ scanned t u)
      × (raw_text t.text ≡ body)
      × (rest u ≡ tail)
raw_text-scan_string delim tp body tail s v d a h =
    let (u, e, r, l) = scan_string_closed delim tp body tail s v a h in
    (
      record {
        type = tp;
        text = delim ∷ (body ++ (delim ∷ []));
        position = new_position s s.position;
      },
      u,
      e,
      raw_text-quoted delim body d,
      r,
    )
