-- ===== src/Tests/Settings.antt =====
-- A configuration with a token, a renamed table, and a path with an index.
use mitools.Prelude.{
  Distinct, All, ℕ, ◌≡◌, refl, Bool, true, false, none, some, List, [], ◌∷◌, map, Text, codes, same,
  starts_with, Lacks, arith, if◌then◌else◌, ok,
}
use mitools.Config.{key, index, ConfigPath, Provider, is_index}
use mitools.Config.Redaction.{redact_config, stars, shown}
use mitools.Config.Redaction.Hidden.{IsReadable, redact_config-IsReadable}
use mitools.Config.Aliases.Lookup.{
  first_node, candidates, load_all, warned_by, with_aliases-first_node,
}
use mitools.Config.Errors.{path_key}
use mitools.Config.Toml.{split_path}
use mitools.Config.Paths.{split_path-path_key}

abbrev is_redacted : ℕ → Bool
is_redacted n = if same (n ∷ []) (9 ∷ []) then true else false

abbrev settings : List (Text × ℕ)
settings = (codes "Api_Key", 1) ∷ (codes "port", 2) ∷ (codes "user", 9) ∷ (codes "shard", 4) ∷ []

redact_config-IsReadable_example :
    (map (λ e. e.0) (redact_config is_redacted settings (codes "shard" ∷ []))
      ≡ map (λ e. e.0) settings)
    × All
        (IsReadable is_redacted (codes "shard" ∷ []))
        (redact_config is_redacted settings (codes "shard" ∷ []))
redact_config-IsReadable_example =
    redact_config-IsReadable is_redacted settings (codes "shard" ∷ [])

settings_run :
    redact_config is_redacted settings (codes "shard" ∷ [])
    ≡ (codes "Api_Key", stars)
      ∷ (codes "port", shown 2)
      ∷ (codes "user", stars)
      ∷ (codes "shard", stars)
      ∷ []
unfolding redact_config same starts_with
settings_run = refl

-- The file still has the table `devserver`.
abbrev old_file : Provider Text ℕ
old_file (key table ∷ key name ∷ []) =
    if same table (codes "devserver") then ok (some 4000) else ok none
old_file path = ok none

abbrev aliases : List (Text × List Text)
aliases = (codes "dev_server", codes "server" ∷ codes "devserver" ∷ []) ∷ []

abbrev port_base : ConfigPath
port_base = key (codes "dev_server") ∷ key (codes "port_base") ∷ []

with_aliases-first_node_example :
    let after =
      load_all old_file true aliases
        (port_base ∷ port_base ∷ [])
        (record { warned = []; warnings = [] }) in
    (after.0
      ≡ map
          (λ p. first_node old_file (candidates old_file true aliases p))
          (port_base ∷ port_base ∷ []))
    × Distinct (warned_by after.1.warnings [])
with_aliases-first_node_example =
    with_aliases-first_node old_file true aliases (port_base ∷ port_base ∷ [])

not_index : is_index (codes "servers") ≡ false
unfolding is_index
not_index = refl

servers_Lacks : Lacks b'.' (codes "servers")
servers_Lacks = (
  λ e. omega arith,
  (
    λ e. omega arith,
    (
      λ e. omega arith,
      (λ e. omega arith, (λ e. omega arith, (λ e. omega arith, (λ e. omega arith, tt)))),
    ),
  ),
)

name_Lacks : Lacks b'.' (codes "name")
name_Lacks = (λ e. omega arith, (λ e. omega arith, (λ e. omega arith, (λ e. omega arith, tt))))

name_index : is_index (codes "name") ≡ false
unfolding is_index
name_index = refl

split_path-path_key_example :
    split_path true
      (key (path_key (key (codes "servers") ∷ index 10 ∷ key (codes "name") ∷ [])) ∷ [])
    ≡ key (codes "servers") ∷ index 10 ∷ key (codes "name") ∷ []
split_path-path_key_example =
    split_path-path_key (codes "servers") (index 10 ∷ key (codes "name") ∷ [])
      (servers_Lacks, not_index) (tt, ((name_Lacks, name_index), tt))
