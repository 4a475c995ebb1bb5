-- ===== src/Entity/Keys.antt =====
-- The storage keys of persistence/entities.ts, read back into their parts.
use mathlib.Core.Path.{ap₂}
use mitools.Prelude.{
  ℕ, ◌≡◌, ◌↔◌, refl, sym, ap, ◌∙◌, true, List, [], ◌∷◌, ◌++◌, append_assoc, append-nil, Text,
  length, Lacks, ok, >>=-eq-ok, arith, Bool-cases, inl, inr,
}
use mitools.Prelude.Decimal.{decimal, decimal-injective, decimal-IsDigit, IsDigit-Lacks}
use mitools.Entity.{
  Numbers, IsNumbers, Field, string, number, boolean, undefined, other, Document, field, pick,
  Entity, valid_name, encode_key_part, encode_parts, join_hash, key_prefix, get_pk,
}

-- A rest of a text that is empty or starts with the separator.
abbrev IsEnd : ℕ → Text → Type 0
IsEnd c [] = Unit
IsEnd c (a ∷ s) = a ≡ c

-- Where a text is read up to the separator, the part before it is determined.
cut_at :
    (c : ℕ) (x y r s : Text)
    → Lacks c x
    → Lacks c y
    → IsEnd c r
    → IsEnd c s
    → x ++ r ≡ y ++ s
    → (x ≡ y) × (r ≡ s)
cut_at c [] [] r s lx ly er es e = (refl, e)
cut_at c [] (b ∷ y) [] s lx ly er es e = cc
cut_at c [] (b ∷ y) (a ∷ r) s lx ly er es e = ground arith
cut_at c (a ∷ x) [] r [] lx ly er es e = cc
cut_at c (a ∷ x) [] r (b ∷ s) lx ly er es e = ground arith
cut_at c (a ∷ x) (b ∷ y) r s lx ly er es e = ground (arith, cut_at c x y r s lx.1 ly.1 er es)

-- Two texts of one length, each before a rest.
cut_length : (x y r s : Text) → length x ≡ length y → x ++ r ≡ y ++ s → (x ≡ y) × (r ≡ s)
cut_length [] [] r s h e = (refl, e)
cut_length [] (b ∷ y) r s h e = absurd (omega arith)
cut_length (a ∷ x) [] r s h e = absurd (omega arith)
cut_length (a ∷ x) (b ∷ y) r s h e = ground (arith, cut_length x y r s)

decimal-Lacks : (n : ℕ) → Lacks b':' (decimal n)
decimal-Lacks n = IsDigit-Lacks b':' (decimal n) (omega arith) (decimal-IsDigit n)

-- A length-prefixed text is read back whatever stands in it and behind it.
cut_string :
    (s t r q : Text)
    → decimal (length s) ++ b':' ∷ (s ++ r) ≡ decimal (length t) ++ b':' ∷ (t ++ q)
    → (s ≡ t) × (r ≡ q)
cut_string s t r q e =
    let (d, e') =
      cut_at b':' (decimal (length s)) (decimal (length t)) (b':' ∷ (s ++ r)) (b':' ∷ (t ++ q))
        (decimal-Lacks _) (decimal-Lacks _) refl refl e in
    cut_length s t r q (decimal-injective _ _ d) (ground arith)

-- What follows the first part of a key.
abbrev tail_of : List Text → Text
tail_of [] = []
tail_of (q ∷ qs) = b'#' ∷ join_hash (q ∷ qs)

join_hash-cons : (p : Text) (ps : List Text) → join_hash (p ∷ ps) ≡ p ++ tail_of ps
unfolding join_hash
join_hash-cons p [] = sym (append-nil p)
join_hash-cons p (q ∷ ps) = refl

tail_of-IsEnd : (ps : List Text) → IsEnd b'#' (tail_of ps)
tail_of-IsEnd [] = tt
tail_of-IsEnd (q ∷ ps) = refl

joined :
    (x y : Text) (ps qs xs ys : List Text)
    → ps ≡ x ∷ xs
    → qs ≡ y ∷ ys
    → tail_of ps ≡ tail_of qs
    → x ++ tail_of xs ≡ y ++ tail_of ys
joined x y ps qs xs ys p q h =
    let h' : tail_of (x ∷ xs) ≡ tail_of (y ∷ ys) = ap tail_of (sym p) ∙ h ∙ ap tail_of q in
    ground (arith, join_hash-cons x xs, join_hash-cons y ys)

tail_of_join :
    (ps qs : List Text)
    → length ps ≡ length qs
    → join_hash ps ≡ join_hash qs
    → tail_of ps ≡ tail_of qs
tail_of_join [] [] n h = refl
tail_of_join [] (q ∷ qs) n h = absurd (omega arith)
tail_of_join (p ∷ ps) [] n h = absurd (omega arith)
tail_of_join (p ∷ ps) (q ∷ qs) n h = ap (λ s. b'#' ∷ s) h

name-Lacks : (name : Text) → valid_name name ≡ true → Lacks b'#' name
unfolding valid_name
name-Lacks [] h = tt
name-Lacks (c ∷ name) h = ground (arith, name-Lacks name)

-- A valid name is read off a key, up to the first separator.
prefix_injective :
    (m n s t : Text)
    → valid_name m ≡ true
    → valid_name n ≡ true
    → key_prefix m ++ s ≡ key_prefix n ++ t
    → (m ≡ n) × (s ≡ t)
unfolding key_prefix
prefix_injective m n s t hm hn h =
    let (same_name, rest) =
      cut_at b'#' m n (b'#' ∷ s) (b'#' ∷ t) (name-Lacks m hm) (name-Lacks n hn) refl refl
        (ground (arith, append_assoc m (b'#' ∷ []) s, append_assoc n (b'#' ∷ []) t)) in
    (same_name, cc rest)

string_case :
    (a b r s : Text)
    → (b's' ∷ decimal (length a) ++ b':' ∷ a) ++ r ≡ (b's' ∷ decimal (length b) ++ b':' ∷ b) ++ s
    → (a ≡ b) × (r ≡ s)
string_case a b r s h = cut_string a b r s (
    ground (
      arith,
      append_assoc (decimal (length a)) (b':' ∷ a) r,
      append_assoc (decimal (length b)) (b':' ∷ b) s,
    ))

module _ {Number : Type 0} (numbers : Numbers Number) (laws : IsNumbers numbers) where
  number_case :
      (a b : Number) (r s : Text)
      → numbers.is_finite a ≡ true
      → numbers.is_finite b ≡ true
      → IsEnd b'#' r
      → IsEnd b'#' s
      → (b'n' ∷ numbers.print a) ++ r ≡ (b'n' ∷ numbers.print b) ++ s
      → (a ≡ b) × (r ≡ s)
  number_case a b r s fa fb er es h =
      let (d, t) =
        cut_at b'#' (numbers.print a) (numbers.print b) r s (laws.print_Lacks a fa)
          (laws.print_Lacks b fb) er es (ground arith) in
      (laws.print_injective a b fa fb d, t)

  abbrev Encodes : Text → Text → Field Number → Text → Type 0
  Encodes entity property v part = encode_key_part numbers entity property v ≡ ok part

  -- A component of a key is determined by its encoding, whatever follows the next separator.
  part_injective :
      (e p f q : Text) (v w : Field Number) (x y r s : Text)
      → Encodes e p v x
      → Encodes f q w y
      → IsEnd b'#' r
      → IsEnd b'#' s
      → x ++ r ≡ y ++ s
      → (v ≡ w) × (r ≡ s)
  unfolding encode_key_part
  part_injective e p f q (string a) (string b) x y r s hx hy er es h =
      ground (arith, string_case a b r s)
  part_injective e p f q (number a) (number b) x y r s hx hy er es h =
      elim (Bool-cases (numbers.is_finite a)) [
        | inl fa ↦ elim (Bool-cases (numbers.is_finite b)) [
          | inl fb ↦ ground (arith, number_case a b r s fa fb er es)
          | inr fb ↦ ground arith
        ]
        | inr fa ↦ ground arith
      ]
  part_injective e p f q (boolean a) (boolean b) x y r s hx hy er es h = ground arith
  part_injective e p f q undefined w x y r s hx hy er es h = cc
  part_injective e p f q (other c) w x y r s hx hy er es h = cc
  part_injective e p f q _ _ x y r s hx hy er es h = ground arith

  parts_injective :
      (e f : Text) (props : List Text) (a b : Document Number) (ps qs : List Text)
      → encode_parts numbers e props a ≡ ok ps
      → encode_parts numbers f props b ≡ ok qs
      → tail_of ps ≡ tail_of qs
      → pick props a ≡ pick props b
  unfolding encode_parts pick
  parts_injective e f [] a b ps qs ha hb h = refl
  parts_injective e f (prop ∷ props) a b ps qs ha hb h =
      let (x, hx, ha') = >>=-eq-ok (encode_key_part numbers e prop (field prop a)) _ ha in
      let (xs, hxs, ea) = >>=-eq-ok (encode_parts numbers e props a) _ ha' in
      let (y, hy, hb') = >>=-eq-ok (encode_key_part numbers f prop (field prop b)) _ hb in
      let (ys, hys, eb) = >>=-eq-ok (encode_parts numbers f props b) _ hb' in
      let (same_field, rest) =
        part_injective e prop f prop (field prop a) (field prop b) x y (tail_of xs) (tail_of ys) hx
          hy (tail_of-IsEnd xs) (tail_of-IsEnd ys) (joined x y ps qs xs ys (cc ea) (cc eb) h) in
      ap₂ (λ v rest. (prop, v) ∷ rest) same_field (parts_injective e f props a b xs ys hxs hys rest)

  -- with equal key fields the parts are equal too
  parts_of_pick :
      (e : Text) (props : List Text) (a b : Document Number)
      → pick props a ≡ pick props b
      → encode_parts numbers e props a ≡ encode_parts numbers e props b
  unfolding encode_parts pick
  parts_of_pick e [] a b h = refl
  parts_of_pick e (prop ∷ props) a b h =
      let same_field : field prop a ≡ field prop b = cc h in
      rw (same_field, parts_of_pick e props a b (cc h))

  length-encode_parts :
      (e : Text) (props : List Text) (a : Document Number) (ps : List Text)
      → encode_parts numbers e props a ≡ ok ps
      → length ps ≡ length props
  unfolding encode_parts
  length-encode_parts e [] a ps h = ground arith
  length-encode_parts e (prop ∷ props) a ps h =
      let (x, _, h') = >>=-eq-ok (encode_key_part numbers e prop (field prop a)) _ h in
      let (xs, hxs, eq) = >>=-eq-ok (encode_parts numbers e props a) _ h' in
      let n : length xs ≡ length props = length-encode_parts e props a xs hxs in
      let s : ps ≡ x ∷ xs = cc eq in omega (arith, ap length s)

  get_pk_parts :
      (self : Entity Number) (a : Document Number) (k : Text)
      → get_pk numbers self a ≡ ok k
      → (ps : List Text) × (encode_parts numbers self.name self.pk_props a ≡ ok ps)
        × (key_prefix self.name ++ join_hash ps ≡ k)
  unfolding get_pk
  get_pk_parts self a k h =
      let (ps, hps, e) = >>=-eq-ok (encode_parts numbers self.name self.pk_props a) _ h in
      (ps, hps, cc e)

  -- When finite numbers print differently and without a `#`, two documents of an entity with a valid
  -- name, both with a key, have one storage key exactly when their key fields are equal, their types
  -- included.
  pub get_pk-injective :
      (self : Entity Number) (a b : Document Number) (j k : Text)
      → valid_name self.name ≡ true
      → get_pk numbers self a ≡ ok j
      → get_pk numbers self b ≡ ok k
      → (j ≡ k) ↔ (pick self.pk_props a ≡ pick self.pk_props b)
  get_pk-injective self a b j k valid ha hb =
      let (ps, hps, ej) = get_pk_parts self a j ha in
      let (qs, hqs, ek) = get_pk_parts self b k hb in
      let np : length ps ≡ length self.pk_props = length-encode_parts _ _ a ps hps in
      let nq : length qs ≡ length self.pk_props = length-encode_parts _ _ b qs hqs in
      (
        λ e. parts_injective self.name self.name self.pk_props a b ps qs hps hqs (
            tail_of_join ps qs (np ∙ sym nq)
              (prefix_injective self.name self.name (join_hash ps) (join_hash qs) valid valid
                (ej ∙ e ∙ sym ek)).1),
        λ e. cc (hps, hqs, parts_of_pick self.name self.pk_props a b e, ej, ek),
      )

  -- When finite numbers print differently and without a `#`, two entities with valid names that give
  -- a storage key in common have the same name.
  pub get_pk_names :
      (one two : Entity Number) (a b : Document Number) (k : Text)
      → valid_name one.name ≡ true
      → valid_name two.name ≡ true
      → get_pk numbers one a ≡ ok k
      → get_pk numbers two b ≡ ok k
      → one.name ≡ two.name
  get_pk_names one two a b k v w ha hb =
      let (ps, hps, ej) = get_pk_parts one a k ha in
      let (qs, hqs, ek) = get_pk_parts two b k hb in
      (prefix_injective one.name two.name (join_hash ps) (join_hash qs) v w (ej ∙ sym ek)).0
