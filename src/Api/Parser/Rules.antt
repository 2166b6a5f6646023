-- ===== src/Api/Parser/Rules.antt =====
-- What every parsing method does, one rule for each way to build a method: it ends within its
-- rounds; where it returns a value, no more of the input is left and no error is lost; where it
-- returns nil, an error has been recorded.
pub mod Build
pub mod Tokens
pub use zctl.Api.Parser.Rules.Build.{
  Post, Runs, Eats, Runs-zero, Eats-zero, Runs-Eats, Runs-pure, Runs-gets, Runs-crash, Eats-fail,
  Runs-fail, Runs-branch, Eats-branch, Runs-bind, Eats-bind, Eats-bind_later, Runs-bind-Eats,
}
pub use zctl.Api.Parser.Rules.Tokens.{
  is_readable, is_solid, Runs-advance, Eats-peek, Runs-peek, Eats-peek_node, Runs-pred, Runs-expect,
  Runs-not_expect, Runs-advance_if, Eats-advance_if, Runs-node, Runs-deref, Runs-refuse_keyword,
  Runs-peek_ignore, parse_rules,
}
