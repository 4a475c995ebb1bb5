-- ===== src/Config/Errors.antt =====
-- config/errors.ts: the typed failures of a configuration, their messages, and the remedy that goes
-- with one.
use mitools.Prelude.{
  ℕ, Bool, true, false, not, Option, none, some, List, [], ◌∷◌, ◌++◌, map, keep, Text, codes,
  starts_with, is_space, ◌==◌, if◌then◌else◌, Result, ok, err,
}
use mitools.Prelude.Decimal.{decimal}
use mitools.Errors.{Cause, cause_message}
use mitools.Chunks.{trim_both}
use mitools.Config.{Segment, ConfigPath, Provider, segment_text, split_at, join_with}

pub record TomlParseError : Type 0 where
  pub source : Text
  pub cause : Cause
  pub line : Option ℕ
  pub column : Option ℕ

abbrev column_text : Option ℕ → Text
column_text none = codes "undefined"
column_text (some column) = decimal column

abbrev where_text : Option ℕ → Option ℕ → Text
where_text none column = []
where_text (some line) column =
    codes " at line " ++ decimal line ++ codes ", column " ++ column_text column

abbrev first_of : List Text → Text
first_of [] = []
first_of (line ∷ lines) = line

unfoldable pub toml_message : TomlParseError → Text
unfolding split_at
toml_message e =
    codes "parse "
    ++ e.source
    ++ where_text e.line e.column
    ++ codes ": "
    ++ first_of (split_at b'\n' (cause_message e.cause))

unfoldable pub not_found_message : Text → Text
not_found_message path = codes "config file not found: " ++ path

-- An issue of the effect library's schema: a pointer to an inner issue, a leaf with the text that the
-- library's hook makes of it, or one of the kinds that are neither.
pub data Issue : Type 0 where
  pointer : ConfigPath → Issue → Issue
  leaf : Text → Issue
  composite : Issue

-- A `ConfigError` of the effect library: of a schema, with the issue and the message, or of a source.
pub data ConfigError : Type 0 where
  schema_error : Issue → Text → ConfigError
  source_error : Text → ConfigError

unfoldable pub issue_path : Issue → ConfigPath
issue_path (pointer path issue) = path ++ issue_path issue
issue_path (leaf text) = []
issue_path composite = []

unfoldable pub leaf_issue : Issue → Option Text
leaf_issue (pointer path issue) = leaf_issue issue
leaf_issue (leaf text) = some text
leaf_issue composite = none

abbrev non_empty : ConfigPath → Option ConfigPath
non_empty [] = none
non_empty (s ∷ path) = some (s ∷ path)

unfoldable pub config_error_path : ConfigError → Option ConfigPath
unfolding issue_path
config_error_path (schema_error issue message) = non_empty (issue_path issue)
config_error_path (source_error message) = none

-- `text.replace(/^SchemaError\(/, "")`
abbrev drop_prefix : Text → Text → Text
drop_prefix [] text = text
drop_prefix (p ∷ prefix) [] = []
drop_prefix (p ∷ prefix) (c ∷ text) = drop_prefix prefix text

unfoldable pub strip_wrapper : Text → Text
strip_wrapper text =
    if starts_with (codes "SchemaError(") text
    then drop_prefix (codes "SchemaError(") text
    else text

-- `text.replace(/\)$/, "")`
unfoldable pub strip_last : Text → Text
strip_last [] = []
strip_last (c ∷ []) = if c == b')' then [] else c ∷ []
strip_last (c ∷ d ∷ text) = c ∷ strip_last (d ∷ text)

-- `/^\s*at \[/.test(line)`
unfoldable pub is_location : Text → Bool
unfolding is_space
is_location [] = false
is_location (c ∷ line) =
    let later = is_location line in
    if starts_with (codes "at [") (c ∷ line) then true else if is_space c then later else false

unfoldable pub issue_lines : Text → Text
unfolding strip_wrapper strip_last split_at is_location join_with trim_both
issue_lines message = trim_both (
    join_with (codes " ") (
      map trim_both (
        keep (λ line. not (is_location line))
          (split_at b'\n' (strip_last (strip_wrapper message))))))

abbrev leaf_or : Text → Option Text → Text
leaf_or message (some text) = text
leaf_or message none = issue_lines message

unfoldable pub config_error_problem : ConfigError → Text
unfolding leaf_issue issue_lines
config_error_problem (schema_error issue message) = leaf_or message (leaf_issue issue)
config_error_problem (source_error message) = message

pub record ConfigRemedyError : Type 0 where
  pub key_name : Text
  pub problem : Text
  pub remedy : Text
  pub cause : ConfigError

unfoldable pub remedy_message : ConfigRemedyError → Text
remedy_message e = e.key_name ++ codes ": " ++ e.problem ++ codes "\n  " ++ e.remedy

pub record RemedyOptions : Type 0 where
  pub remedy : Text
  pub key_name : Option Text
  pub path : Option ConfigPath
  pub problem : Option Text

-- A success without a node; a failure of the source is no absence.
unfoldable pub is_absent : {Failure Node : Type 0} → Result Failure (Option Node) → Bool
is_absent (ok none) = true
is_absent (ok (some node)) = false
is_absent (err failure) = false

abbrev keys_of : Option Text → ConfigPath
keys_of none = []
keys_of (some k) = map Segment.key (split_at b'.' k)

abbrev pub or_path : Option ConfigPath → ConfigPath → ConfigPath
or_path none path = path
or_path (some path) other = path

unfoldable pub probed_path : ConfigError → RemedyOptions → ConfigPath
unfolding config_error_path
probed_path error options =
    or_path options.path (or_path (config_error_path error) (keys_of options.key_name))

-- `path.join(".")`
unfoldable pub path_key : ConfigPath → Text
unfolding segment_text join_with
path_key path = join_with (codes ".") (map segment_text path)

abbrev named_key : Option Text → ConfigPath → Text
named_key (some k) path = k
named_key none [] = codes "config"
named_key none (s ∷ path) = path_key (s ∷ path)

abbrev or_problem : Option Text → Bool → ConfigError → Text
or_problem (some problem) absent error = problem
or_problem none true error = codes "not set"
or_problem none false error = config_error_problem error

-- The root is not probed.
abbrev absent_at : {Failure Node : Type 0} → Provider Failure Node → ConfigPath → Bool
absent_at load [] = false
absent_at load (s ∷ path) = is_absent (load (s ∷ path))

unfoldable pub remedy_for :
    {Failure Node : Type 0}
    → Provider Failure Node
    → ConfigError
    → RemedyOptions
    → ConfigRemedyError
unfolding probed_path path_key is_absent config_error_problem
remedy_for load error options =
    let path = probed_path error options in
    record {
      key_name = named_key options.key_name path;
      problem = or_problem options.problem (absent_at load path) error;
      remedy = options.remedy;
      cause = error;
    }

-- `withRemedy(self, options)`, when `self` gives this result
unfoldable pub with_remedy :
    {Failure Node A : Type 0}
    → Provider Failure Node
    → RemedyOptions
    → Result ConfigError A
    → Result ConfigRemedyError A
unfolding remedy_for
with_remedy load options (ok a) = ok a
with_remedy load options (err error) = err (remedy_for load error options)

unfoldable pub required :
    {Failure Node A : Type 0}
    → Provider Failure Node
    → Text
    → Result ConfigError A
    → Result ConfigRemedyError A
unfolding with_remedy
required load remedy self =
    with_remedy load (record { remedy = remedy; key_name = none; path = none; problem = none }) self

-- The first line of a block has a dash, the others are indented.
abbrev block_lines : List Text → List Text
block_lines [] = []
block_lines (line ∷ lines) = (codes "  - " ++ line) ∷ map (λ l. codes "  " ++ l) lines

unfoldable pub error_block : ConfigRemedyError → Text
unfolding remedy_message split_at join_with
error_block e = join_with (codes "\n") (block_lines (split_at b'\n' (remedy_message e)))

abbrev header_lines : Option Text → List Text
header_lines none = []
header_lines (some header) = header ∷ []

unfoldable pub render_config_errors : List ConfigRemedyError → Option Text → Text
unfolding error_block join_with
render_config_errors [] header = []
render_config_errors (e ∷ errors) header =
    join_with (codes "\n") (header_lines header ++ map error_block (e ∷ errors))
