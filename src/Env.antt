-- ===== src/Env.antt =====
-- What the daemon takes from code outside this repository: the options of `advgetopt::getopt`, its
-- string splitter, and its number and duration validators. A development over an `Env` holds for
-- every such library; what a theorem needs of one is among its hypotheses.
use sitter.Base.{ℤ, Text, Bool, Option, List}

pub record Env : Type 0 where
  -- `f_opts.is_defined(name)` and `f_opts.get_string(name)`
  pub is_defined : Text → Bool
  pub get_string : Text → Text
  -- `advgetopt::split_string(text, result, {separator})` on an empty result
  pub split_string : Text → Text → List Text
  -- `advgetopt::validator_integer::convert_string(text, value)`: the success, and the value after
  -- the call, given the value before it
  pub convert_integer : Text → ℤ → Bool × ℤ
  -- `advgetopt::validator_duration::convert_string` followed by the source's cast of the ceiling of
  -- the `double` to a 64-bit integer; `none` for text that is no duration
  pub duration_seconds : Text → Option ℤ

-- One configuration file as `advgetopt::conf_file` answers for it.
pub record ConfFile : Type 0 where
  pub has_parameter : Text → Bool
  pub get_parameter : Text → Text
