-- ===== src/Entity/Spread.antt =====
-- Spreading one object over another, and the key of the result.
use mitools.Prelude.{
  ◌≡◌, refl, Bool, true, false, ◌||◌, List, [], ◌∷◌, Text, same, same_iff, if◌then◌else◌, arith,
  Bool-cases, inl, inr, ok, >>=-eq-ok,
}
use mitools.Entity.{
  Numbers, Field, undefined, Document, field, assign, spread, Entity, encode_key_part, encode_parts,
  get_pk,
}

module _ {Number : Type 0} where
  -- the object has a field of the name
  abbrev pub own : Text → Document Number → Bool
  own name [] = false
  own name ((k, v) ∷ rest) = same k name || own name rest

  -- each name once
  abbrev pub IsObject : Document Number → Type 0
  IsObject [] = Unit
  IsObject ((k, v) ∷ rest) = (own k rest ≡ false) × IsObject rest

  field-assign :
      (name k : Text) (v : Field Number) (a : Document Number)
      → field name (assign k v a) ≡ (if same k name then v else field name a)
  unfolding field assign
  field-assign name k v [] = refl
  field-assign name k v ((j, w) ∷ a) =
      ground (arith, field-assign name k v a, same_iff j k, same_iff j name, same_iff k name)

  field_absent : (name : Text) (b : Document Number) → own name b ≡ false → field name b ≡ undefined
  unfolding field
  field_absent name [] h = refl
  field_absent name ((k, v) ∷ b) h = ground (arith, field_absent name b)

  -- A field of `{ ...a, ...b }` is that of `b` if `b` has it, else that of `a`.
  pub field-spread :
      (name : Text) (a b : Document Number)
      → IsObject b
      → field name (spread a b) ≡ (if own name b then field name b else field name a)
  unfolding spread field
  field-spread name a [] h = refl
  field-spread name a ((k, v) ∷ b) (fresh, h) =
      ground (arith, field-spread name (assign k v a) b h, field-assign name k v a, same_iff k name)

  module _ (numbers : Numbers Number) where
    undefined_fails : (e p x : Text) → encode_key_part numbers e p undefined ≡ ok x → ⊥
    unfolding encode_key_part
    undefined_fails e p x h = cc

    part_own :
        (e p x : Text) (b : Document Number)
        → encode_key_part numbers e p (field p b) ≡ ok x
        → own p b ≡ true
    part_own e p x b h = elim (Bool-cases (own p b)) [
      | inl o ↦ o
      | inr o ↦ absurd (undefined_fails e p x (rw (field_absent p b o) at h))
    ]

    parts_spread :
        (e : Text) (props : List Text) (a b : Document Number) (ps : List Text)
        → IsObject b
        → encode_parts numbers e props b ≡ ok ps
        → encode_parts numbers e props (spread a b) ≡ ok ps
    unfolding encode_parts
    parts_spread e [] a b ps ob h = h
    parts_spread e (prop ∷ props) a b ps ob h =
        let (x, hx, h') = >>=-eq-ok (encode_key_part numbers e prop (field prop b)) _ h in
        let (xs, hxs, eq) = >>=-eq-ok (encode_parts numbers e props b) _ h' in
        rw
          (field-spread prop a b ob, part_own e prop x b hx, hx, parts_spread e props a b xs ob hxs)
          eq

    -- An object with each field once that has a storage key keeps it when it is spread on top of any
    -- other object.
    pub get_pk-spread :
        (self : Entity Number) (a b : Document Number) (k : Text)
        → IsObject b
        → get_pk numbers self b ≡ ok k
        → get_pk numbers self (spread a b) ≡ ok k
    unfolding get_pk
    get_pk-spread self a b k ob h =
        let (ps, hps, e) = >>=-eq-ok (encode_parts numbers self.name self.pk_props b) _ h in
        rw (parts_spread self.name self.pk_props a b ps ob hps) e
