-- ===== src/Util/Format/Parts.antt =====
-- A format cut into its parts.
use zctl.Base.{
  ℕ, suc, ◌+◌, ◌-◌, Bool, true, false, not, ◌&&◌, [], ◌∷◌, ◌++◌, map, Option, none, some, ltb, ◌==◌,
  Text, codes, take, drop, length, take-length-append, drop-length-append, All, ◌≡◌, ◌≢◌, refl, ap,
  sym, ◌∙◌, arith,
}
use zctl.Util.Casing.{Casing}
use zctl.Util.Format.{shift, index_of, format_parts, format_at}

-- A rune of a format that begins neither `go` nor `zero`.
abbrev pub is_neutral : ℕ → Bool
is_neutral c = ltb c 128 && not (c == b'g') && not (c == b'G') && not (c == b'z') && not (c == b'Z')

abbrev pub IsNeutral : Text → Type 0
IsNeutral = All (λ c. is_neutral c ≡ true)

pub map-append : (f : ℕ → ℕ) (s t : Text) → map f (s ++ t) ≡ map f s ++ map f t
map-append f [] t = refl
map-append f (c ∷ s) t = ap (◌∷◌ (f c)) (map-append f s t)

drop-past : (k : ℕ) (s t : Text) → drop (length s + k) (s ++ t) ≡ drop k t
drop-past k [] t = let e : 0 + k ≡ k = omega arith in ap (λ n. drop n t) e
drop-past k (c ∷ s) t =
    let e : suc (length s) + k ≡ suc (length s + k) = omega arith in
    ap (λ n. drop n (c ∷ s ++ t)) e ∙ drop-past k s t

shift-zero : (o : Option ℕ) → shift 0 o ≡ o
shift-zero none = refl
shift-zero (some i) = ap some (omega arith)

shift-suc : (n : ℕ) (o : Option ℕ) → shift 1 (shift n o) ≡ shift (suc n) o
shift-suc n none = refl
shift-suc n (some i) = ap some (omega arith)

module _ (u : Casing) where
  upper-neutral : (c : ℕ) → is_neutral c ≡ true → (u.upper c ≢ b'G') × (u.upper c ≢ b'Z')
  upper-neutral c h =
      let l = u.upper_ascii c (ground (arith, h)) in (ground (arith, l, h), ground (arith, l, h))

  index_of-past :
      (h : ℕ) (t pre rest : Text)
      → ((c : ℕ) → is_neutral c ≡ true → u.upper c ≢ h)
      → IsNeutral pre
      → index_of (map u.upper pre ++ rest) (h ∷ t) ≡ shift (length pre) (index_of rest (h ∷ t))
  unfolding index_of
  index_of-past h t [] rest n a = sym (shift-zero (index_of rest (h ∷ t)))
  index_of-past h t (c ∷ pre) rest n a =
      let e : (u.upper c == h) ≡ false = ground (arith, n c a.0) in
      rw (e, index_of)
        (ap (shift 1) (index_of-past h t pre rest n a.1)
          ∙ shift-suc (length pre) (index_of rest (h ∷ t)))

  -- The two places, in a format whose other runes are neutral.
  abbrev pub spelled : Text → Text → Text → Text
  spelled before through after =
      map u.upper before
      ++ (b'G' ∷ b'O' ∷ (map u.upper through ++ (codes "ZERO" ++ map u.upper after)))

  pub index_of-go :
      (before through after : Text)
      → IsNeutral before
      → index_of (spelled before through after) (codes "GO") ≡ some (length before)
  unfolding index_of
  index_of-go before through after a =
      index_of-past b'G' (codes "O") before _ (λ c h. (upper-neutral c h).0) a
      ∙ ap some (omega arith)

  pub index_of-zero :
      (before through after : Text)
      → IsNeutral before
      → IsNeutral through
      → index_of (spelled before through after) (codes "ZERO")
        ≡ some (length before + suc (suc (length through)))
  unfolding index_of
  index_of-zero before through after a b =
      index_of-past b'Z' (codes "ERO") before _ (λ c h. (upper-neutral c h).1) a
      ∙ ap (λ o. shift (length before) (shift 1 (shift 1 o)))
          (index_of-past b'Z' (codes "ERO") through _ (λ c h. (upper-neutral c h).1) b)
      ∙ ap some (omega arith)

-- A format with its parts in their order.
abbrev pub assembled : Text → ℕ × ℕ → Text → ℕ × ℕ × ℕ × ℕ → Text → Text
assembled before (g, o) through (z, e, r, q) after =
    before ++ (g ∷ o ∷ (through ++ (z ∷ e ∷ r ∷ q ∷ after)))

module _ (u : Casing) (title_of : Text → Text) where
  pub format_at-cut :
      (before through after : Text) (g o z e r q : ℕ) (content : Text)
      → format_at u title_of
          (some (length before))
          (some (length before + suc (suc (length through))))
          (assembled before (g, o) through (z, e, r, q) after)
          content
        ≡ format_parts u title_of before (g ∷ o ∷ []) through (z ∷ e ∷ r ∷ q ∷ []) after content
  unfolding format_at
  format_at-cut before through after g o z e r q content =
      let n = length before in
      let k = length through in
      let rest = z ∷ e ∷ r ∷ q ∷ after in
      let tail = g ∷ o ∷ (through ++ rest) in
      let whole = before ++ tail in
      let test : ltb (n + suc (suc k)) n ≡ false = ground arith in
      let p1 : take n whole ≡ before = take-length-append before tail in
      let p2 : drop n whole ≡ tail = drop-length-append before tail in
      let p3 : drop (n + 2) whole ≡ through ++ rest = drop-past 2 before tail in
      let p4 : n + suc (suc k) - (n + 2) ≡ k = omega arith in
      let p5 : take k (through ++ rest) ≡ through = take-length-append through rest in
      let p6 : drop (n + suc (suc k)) whole ≡ rest =
        drop-past (suc (suc k)) before tail ∙ drop-length-append through rest in
      let q7 : n + suc (suc k) + 4 ≡ n + suc (suc (k + 4)) = omega arith in
      let p7 : drop (n + suc (suc k) + 4) whole ≡ after =
        ap (λ i. drop i whole) q7
        ∙ drop-past (suc (suc (k + 4))) before tail
        ∙ drop-past 4 through rest in
      rw (test, p1, p2, p3, p4, p5, p6, p7) refl
