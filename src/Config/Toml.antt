-- ===== src/Config/Toml.antt =====
-- config/toml.ts: providers over a parsed TOML file. The parser, the provider of an object and the
-- combinators of providers are the foreign packages'.
use mitools.Prelude.{
  ℕ, Bool, true, false, Option, none, some, List, [], ◌∷◌, ◌++◌, map, Text, codes, any, ◌==◌,
  if◌then◌else◌, Result, ok, err, ◌>>=◌, map_error,
}
use mitools.Errors.{Cause, OperationError}
use mitools.Config.{Segment, key, index, ConfigPath, Provider, split_at, numeric_segment}
use mitools.Config.Errors.{TomlParseError}

-- A parsed value: a date with its `toISOString()`, an array, a table, or any other value.
mutual
  pub data TomlValue (Scalar : Type 0) : Type 0 where
    date : Text → TomlValue Scalar
    array : TomlValues Scalar → TomlValue Scalar
    table : TomlTable Scalar → TomlValue Scalar
    scalar : Scalar → TomlValue Scalar

  pub data TomlValues (Scalar : Type 0) : Type 0 where
    no_values : TomlValues Scalar
    value : TomlValue Scalar → TomlValues Scalar → TomlValues Scalar

  pub data TomlTable (Scalar : Type 0) : Type 0 where
    no_entries : TomlTable Scalar
    entry : Text → TomlValue Scalar → TomlTable Scalar → TomlTable Scalar

module _ {Scalar : Type 0} where
  -- dates become strings, which `of_text` makes scalars
  unfoldable mutual
    pub normalize_toml : (Text → Scalar) → TomlValue Scalar → TomlValue Scalar
    normalize_toml of_text (date iso) = scalar (of_text iso)
    normalize_toml of_text (array vs) = array (normalize_values of_text vs)
    normalize_toml of_text (table es) = table (normalize_table of_text es)
    normalize_toml of_text (scalar v) = scalar v

    pub normalize_values : (Text → Scalar) → TomlValues Scalar → TomlValues Scalar
    normalize_values of_text no_values = no_values
    normalize_values of_text (value v vs) =
        value (normalize_toml of_text v) (normalize_values of_text vs)

    pub normalize_table : (Text → Scalar) → TomlTable Scalar → TomlTable Scalar
    normalize_table of_text no_entries = no_entries
    normalize_table of_text (entry k v es) =
        entry k (normalize_toml of_text v) (normalize_table of_text es)

-- a segment without a dot stays as it is
unfoldable pub split_segment : Bool → Segment → ConfigPath
unfolding split_at numeric_segment
split_segment numeric (index n) = index n ∷ []
split_segment numeric (key k) =
    if any (λ c. c == b'.') k
    then map (λ part. if numeric then numeric_segment part else key part) (split_at b'.' k)
    else key k ∷ []

unfoldable pub split_path : Bool → ConfigPath → ConfigPath
unfolding split_segment
split_path numeric [] = []
split_path numeric (s ∷ path) = split_segment numeric s ++ split_path numeric path

-- What the effect library gives: the two combinators, and the providers of an object and of the
-- environment.
pub record Providers (Failure Node Scalar : Type 0) : Type 0 where
  pub or_else : Provider Failure Node → Provider Failure Node → Provider Failure Node
  pub map_input : Provider Failure Node → (ConfigPath → ConfigPath) → Provider Failure Node
  pub from_unknown : TomlValue Scalar → Provider Failure Node
  pub from_env : Option (List (Text × Text)) → Provider Failure Node
  pub constant_case : Provider Failure Node → Provider Failure Node

-- What the parser of the TOML package throws, with its place in the text for a `TomlError`.
pub record ParseFailure : Type 0 where
  pub cause : Cause
  pub place : Option (ℕ × ℕ)

pub record TomlOptions : Type 0 where
  pub source : Option Text
  pub dotted : Option Bool
  pub optional : Option Bool
  pub env : Option (List (Text × Text))
  pub constant_case : Option Bool

pub data TomlFailure : Type 0 where
  parse_failed : TomlParseError → TomlFailure
  not_found : Text → TomlFailure
  read_failed : OperationError → TomlFailure

-- What `readFile` throws: `ENOENT`, or something else.
pub data ReadFailure : Type 0 where
  enoent : Cause → ReadFailure
  other : Cause → ReadFailure

unfoldable pub toml_parse_error : Text → ParseFailure → TomlParseError
toml_parse_error source failure = at_place failure.place
  where
    at_place : Option (ℕ × ℕ) → TomlParseError
    at_place none = record { source = source; cause = failure.cause; line = none; column = none }
    at_place (some (line, column)) = record {
      source = source;
      cause = failure.cause;
      line = some line;
      column = some column;
    }

abbrev is_option : Bool → Option Bool → Bool
is_option wanted none = false
is_option true (some b) = b
is_option false (some b) = if b then false else true

abbrev source_of : Option Text → Text → Text
source_of none default_source = default_source
source_of (some source) default_source = source

module _ {Failure Node Scalar : Type 0} (lib : Providers Failure Node Scalar)
    (of_text : Text → Scalar) (parse : Text → Result ParseFailure (TomlValue Scalar)) where
  unfoldable pub with_dotted_paths : Provider Failure Node → Provider Failure Node
  unfolding split_path
  with_dotted_paths provider =
      lib.or_else (lib.map_input provider (split_path true))
        (lib.map_input provider (split_path false))

  abbrev dotted_unless : Bool → Provider Failure Node → Provider Failure Node
  dotted_unless true provider = provider
  dotted_unless false provider = with_dotted_paths provider

  unfoldable pub toml_config_provider :
      Text → TomlOptions → Result TomlFailure (Provider Failure Node)
  unfolding normalize_toml with_dotted_paths toml_parse_error
  toml_config_provider text options = do
    root ←
        map_error
          (λ f. parse_failed (toml_parse_error (source_of options.source (codes "<inline>")) f))
          (parse text)
    ok (
        dotted_unless (is_option false options.dotted)
          (lib.from_unknown (normalize_toml of_text root)))

  abbrev read_failure : Text → ReadFailure → TomlFailure
  read_failure path (enoent cause) = not_found path
  read_failure path (other cause) =
      read_failed
        (record { source = codes "config"; operation = codes "read " ++ path; cause = cause })

  -- `read` is what the file system gives. The path is the source, unless the options have one.
  unfoldable pub toml_config_provider_from_file :
      Text → Result ReadFailure Text → TomlOptions → Result TomlFailure (Provider Failure Node)
  unfolding toml_config_provider
  toml_config_provider_from_file path read options = do
    text ← map_error (read_failure path) read
    toml_config_provider text (record options { source = some (source_of options.source path) })

  abbrev empty_provider : Provider Failure Node
  empty_provider = lib.from_unknown (table no_entries)

  abbrev or_empty :
      Result TomlFailure (Provider Failure Node) → Result TomlFailure (Provider Failure Node)
  or_empty (err (not_found path)) = ok empty_provider
  or_empty (err e) = err e
  or_empty (ok provider) = ok provider

  unfoldable pub provider_for_layer :
      Text → Result ReadFailure Text → TomlOptions → Result TomlFailure (Provider Failure Node)
  unfolding toml_config_provider_from_file
  provider_for_layer path read options =
      let provider = toml_config_provider_from_file path read options in
      if is_option true options.optional then or_empty provider else provider

  -- An environment variable wins over the file.
  unfoldable pub layer_toml_with_env :
      Text → Result ReadFailure Text → TomlOptions → Result TomlFailure (Provider Failure Node)
  unfolding provider_for_layer
  layer_toml_with_env path read options = do
    toml ← provider_for_layer path read options
    ok (lib.or_else overrides toml)
    where
      env : Provider Failure Node
      env = lib.from_env options.env

      overrides : Provider Failure Node
      overrides = if is_option true options.constant_case then lib.constant_case env else env
