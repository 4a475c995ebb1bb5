-- ===== src/Entity.antt =====
-- persistence/entities.ts: entities, their keys and their operations over the docstore. A document
-- is an object of fields; numbers are JavaScript's, a parameter with their print.
pub mod Store
pub mod Migration
pub mod Keys
pub mod Spread
use Prim.Native.String.{String}
use mitools.Prelude.{
  ℕ, zero, suc, ◌+◌, ◌≡◌, ◌≢◌, Bool, true, false, Option, none, some, List, [], ◌∷◌, ◌++◌, Text,
  codes, same, any, ◌==◌, if◌then◌else◌, length, Lacks, Result, ok, err, ◌>>=◌,
}
use mitools.Prelude.Decimal.{decimal}
use mitools.Errors.{Cause}
use mitools.Docstore.{DocMeta}

-- JavaScript's numbers, up to `===`, with what a template literal prints for one.
pub record Numbers (Number : Type 0) : Type 0 where
  pub is_finite : Number → Bool
  pub print : Number → Text

-- What the language guarantees: finite numbers that print alike are the same, and the print has
-- digits, a sign, a point and an exponent, but no `#`.
pub record IsNumbers {Number : Type 0} (numbers : Numbers Number) : Type 0 where
  pub print_injective :
      (m n : Number)
      → numbers.is_finite m ≡ true
      → numbers.is_finite n ≡ true
      → numbers.print m ≡ numbers.print n
      → m ≡ n
  pub print_Lacks : (n : Number) → numbers.is_finite n ≡ true → Lacks b'#' (numbers.print n)

-- A value of a field, as `encodeKeyPart` tells them apart; `undefined` is the value of a field
-- that is not there.
pub data Field (Number : Type 0) : Type 0 where
  string : Text → Field Number
  number : Number → Field Number
  boolean : Bool → Field Number
  undefined : Field Number
  other : Cause → Field Number

-- An object: its own fields, each name once.
abbrev pub Document : Type 0 → Type 0
Document Number = List (Text × Field Number)

module _ {Number : Type 0} where
  -- `object[name]`
  unfoldable pub field : Text → Document Number → Field Number
  field name [] = undefined
  field name ((k, v) ∷ rest) = if same k name then v else field name rest

  -- `object[name] = v`
  unfoldable pub assign : Text → Field Number → Document Number → Document Number
  assign name v [] = (name, v) ∷ []
  assign name v ((k, w) ∷ rest) = if same k name then (k, v) ∷ rest else (k, w) ∷ assign name v rest

  -- `{ ...a, ...b }`
  unfoldable pub spread : Document Number → Document Number → Document Number
  unfolding assign
  spread a [] = a
  spread a ((k, v) ∷ b) = spread (assign k v a) b

  -- the object of the key fields, `key[prop] = doc[prop]` for each
  unfoldable pub pick : List Text → Document Number → Document Number
  pick [] doc = []
  pick (prop ∷ props) doc = (prop, field prop doc) ∷ pick props doc

pub record InvalidKey (Number : Type 0) : Type 0 where
  pub entity : Text
  pub property : Text
  pub key_value : Field Number

pub record UpsertOptions : Type 0 where
  pub ttl_ms : Option ℕ
  pub expires_at : Option ℕ

-- `new Entity(options)`. The registry that `migrateAll` walks is the list of such records.
pub record Entity (Number : Type 0) : Type 0 where
  pub name : Text
  pub pk_props : List Text
  pub version : ℕ
  pub migrate_fn : Option (Document Number → ℕ → Result Cause (Document Number))
  pub validate_fn : Option (Document Number → Result Cause (Document Number))
  pub default_ttl_ms : Option ℕ

-- The constructor's check: a name with a `#` throws.
unfoldable pub valid_name : Text → Bool
valid_name name = elim (any (λ c. c == b'#') name) [ true ↦ false | false ↦ true ]

module _ {Number : Type 0} (numbers : Numbers Number) where
  unfoldable pub encode_key_part : Text → Text → Field Number → Result (InvalidKey Number) Text
  encode_key_part entity property (string s) = ok (b's' ∷ decimal (length s) ++ b':' ∷ s)
  encode_key_part entity property (number n) =
      if numbers.is_finite n
      then ok (b'n' ∷ numbers.print n)
      else err (record { entity = entity; property = property; key_value = number n })
  encode_key_part entity property (boolean b) = ok (b'b' ∷ (if b then b'1' else b'0') ∷ [])
  encode_key_part entity property v =
      err (record { entity = entity; property = property; key_value = v })

  -- `pkProps.map(...)`: the first bad component throws.
  unfoldable pub encode_parts :
      Text → List Text → Document Number → Result (InvalidKey Number) (List Text)
  unfolding encode_key_part
  encode_parts entity [] arg = ok []
  encode_parts entity (prop ∷ props) arg = do
    part ← encode_key_part entity prop (field prop arg)
    parts ← encode_parts entity props arg
    ok (part ∷ parts)

-- `parts.join("#")`
unfoldable pub join_hash : List Text → Text
join_hash [] = []
join_hash (p ∷ []) = p
join_hash (p ∷ q ∷ ps) = p ++ b'#' ∷ join_hash (q ∷ ps)

-- `$name#`, the prefix of every key of an entity
unfoldable pub key_prefix : Text → Text
key_prefix name = b'$' ∷ name ++ b'#' ∷ []

module _ {Number : Type 0} (numbers : Numbers Number) (self : Entity Number) where
  unfoldable pub get_pk : Document Number → Result (InvalidKey Number) Text
  unfolding key_prefix
  get_pk arg = do
    parts ← encode_parts numbers self.name self.pk_props arg
    ok (key_prefix self.name ++ join_hash parts)

unfoldable pub meta : {Number : Type 0} → Entity Number → Option ℕ → ℕ → DocMeta
meta self expires_at now = record {
  entity = some self.name;
  version = some self.version;
  expires_at = expires_at;
  updated_at = some now;
}

abbrev or_later : Option ℕ → ℕ → Option ℕ → Option ℕ
or_later none now e = e
or_later (some ttl) now e = some (now + ttl)

abbrev or_else : Option ℕ → Option ℕ → Option ℕ
or_else none e = e
or_else (some t) e = some t

-- The expiry of an upsert; no options are the options with nothing set.
unfoldable pub resolve_expiry : Option ℕ → ℕ → UpsertOptions → Option ℕ
resolve_expiry default_ttl_ms now options =
    or_else options.expires_at (or_later options.ttl_ms now (or_later default_ttl_ms now none))

-- The expiry of a modify: an explicit option, else the expiry that the row has.
unfoldable pub next_expiry : Option ℕ → ℕ → UpsertOptions → Option ℕ
next_expiry current now options = or_else options.expires_at (or_later options.ttl_ms now current)
