-- ===== src/Rpc/Desc/Comments.antt =====
-- rpc/generator/ent/gen.go: the comments that are cut out of a proto before it is scanned.
pub mod Free
use zctl.Base.{ℕ, zero, suc, ◌++◌, Option, none, some, Text, codes, length, drop}
use zctl.Base.Strings.{split_at}

-- `stripLineComment`
unfoldable pub strip_line_comment : Text → Text
strip_line_comment s = elim (split_at (codes "//") s) [ none ↦ s | some (a, b) ↦ a ]

-- What stands behind the end of the comment that opens at the start of the text, which is sought
-- from the opening on.
unfoldable pub close_comment : Text → Option Text
close_comment s = elim (split_at (codes "*/") s) [ none ↦ none | some (a, b) ↦ some (drop 2 b) ]

-- What one round of the loop of `stripBlockComments` does: it returns, or goes on.
pub data Round : Type 0 where
  returned : Text → Round
  again : Text → Round

abbrev pub after_open : Text → Option Text → Round
after_open a none = returned a
after_open a (some rest) = again (a ++ rest)

abbrev pub cut_comment : Text → Option (Text × Text) → Round
cut_comment s none = returned s
cut_comment s (some (a, b)) = after_open a (close_comment b)

unfoldable pub strip_round : Text → Round
unfolding close_comment
strip_round s = cut_comment s (split_at (codes "/*") s)

abbrev pub after_round : (Text → Text) → Round → Text
after_round rec (returned t) = t
after_round rec (again t) = rec t

-- A round that goes on shortens the text, so that there are no more than it has runes.
unfoldable pub strip_loop : ℕ → Text → Text
strip_loop zero s = s
strip_loop (suc n) s = after_round (strip_loop n) (strip_round s)

unfoldable pub strip_block_comments : Text → Text
unfolding strip_loop strip_round close_comment
strip_block_comments s = strip_loop (length s) s
