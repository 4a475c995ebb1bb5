-- ===== src/Tests/Codec.antt =====
-- A codec of documents with texts and whole numbers, and whole numbers as JavaScript's.
use mathlib.Core.List.{flatten, append-nil}
use mitools.Prelude.{
  ℕ, zero, suc, ◌≡◌, refl, ap, subst, true, [], ◌∷◌, ◌++◌, Text, Bytes, codes, length, All, Lacks,
  arith, Result, ok, err, ◌>>=◌, >>=-eq-ok,
}
use mitools.Prelude.Decimal.{decimal, decimal-injective, IsDigit, decimal-IsDigit}
use mitools.Errors.{Cause}
use mitools.Docstore.{Cbor, IsCodec}
use mitools.Entity.{Numbers, IsNumbers, Field, string, number, boolean, undefined, other, Document}

-- The first elements of a list, and the rest.
abbrev pub cut : ℕ → Text → Text × Text
cut zero s = ([], s)
cut (suc n) [] = ([], [])
cut (suc n) (a ∷ s) = let (x, y) = cut n s in (a ∷ x, y)

pub cut_append : (s r : Text) → cut (length s) (s ++ r) ≡ (s, r)
cut_append [] r = refl
cut_append (a ∷ s) r = rw (cut_append s r)

abbrev encode_field : Field ℕ → Result Cause Bytes
encode_field (string s) = ok (0 ∷ s)
encode_field (number n) = ok (1 ∷ n ∷ [])
encode_field (boolean b) = err (Cause.string (codes "no boolean"))
encode_field undefined = err (Cause.string (codes "undefined"))
encode_field (other c) = err c

abbrev decode_field : Bytes → Field ℕ
decode_field [] = undefined
decode_field (zero ∷ s) = string s
decode_field (suc t ∷ []) = undefined
decode_field (suc t ∷ n ∷ s) = number n

ok-injective : {A : Type 0} {a b : A} → ◌≡◌ {A = Result Cause A} (ok a) (ok b) → a ≡ b
ok-injective h = cc h

decode-encode_field : (v : Field ℕ) (e : Bytes) → encode_field v ≡ ok e → decode_field e ≡ v
decode-encode_field (string s) e h = subst (λ x. decode_field x ≡ string s) (ok-injective h) refl
decode-encode_field (number n) e h = subst (λ x. decode_field x ≡ number n) (ok-injective h) refl
decode-encode_field (boolean b) e h = cc
decode-encode_field undefined e h = cc
decode-encode_field (other c) e h = cc

abbrev encode_fields : Document ℕ → Result Cause Bytes
encode_fields [] = ok []
encode_fields ((k, v) ∷ rest) = do
  e ← encode_field v
  es ← encode_fields rest
  ok (length k ∷ length e ∷ (k ++ (e ++ es)))

abbrev decode_fields : ℕ → Bytes → Document ℕ
decode_fields zero s = []
decode_fields (suc n) (a ∷ b ∷ s) =
    let (k, s1) = cut a s in let (e, s2) = cut b s1 in (k, decode_field e) ∷ decode_fields n s2
decode_fields (suc n) _ = []

abbrev decode_bytes : Bytes → Result Cause (Document ℕ)
decode_bytes [] = err (Cause.string (codes "end of data"))
decode_bytes (n ∷ s) = ok (decode_fields n s)

-- in two chunks
abbrev pub codec : Cbor (Document ℕ)
codec = record {
  chunks = λ v. encode_fields v >>= (λ es. ok ((length v ∷ []) ∷ es ∷ []));
  decode_first = decode_bytes;
}

decode_cons :
    (k e es : Bytes) (n : ℕ)
    → decode_fields (suc n) (length k ∷ length e ∷ (k ++ (e ++ es)))
      ≡ (k, decode_field e) ∷ decode_fields n es
decode_cons k e es n = rw (cut_append k (e ++ es), cut_append e es)

decode-encode_fields :
    (v : Document ℕ) (es : Bytes) → encode_fields v ≡ ok es → decode_fields (length v) es ≡ v
decode-encode_fields [] es h = refl
decode-encode_fields ((k, v) ∷ rest) out h =
    let (e, he, h') = >>=-eq-ok (encode_field v) _ h in
    let (es, hes, eq) = >>=-eq-ok (encode_fields rest) _ h' in
    subst (λ x. decode_fields (suc (length rest)) x ≡ (k, v) ∷ rest) (ok-injective eq)
      (rw (
        decode_cons k e es (length rest),
        decode-encode_field v e he,
        decode-encode_fields rest es hes,
      ))

pub codec-IsCodec : IsCodec codec
unfolding flatten
codec-IsCodec = record {
  decode_chunks = λ v cs h.
      let (es, hes, eq) = >>=-eq-ok (encode_fields v) _ h in
      subst (λ x. decode_bytes (flatten x) ≡ ok v) (ok-injective eq)
        (rw (append-nil es) (ap ok (decode-encode_fields v es hes)));
}

-- Whole numbers, which print in decimal.
abbrev pub whole : Numbers ℕ
whole = record { is_finite = λ n. true; print = decimal }

digits_Lacks : (s : Text) → All IsDigit s → Lacks b'#' s
digits_Lacks [] h = tt
digits_Lacks (a ∷ s) h = (λ e. omega arith, digits_Lacks s h.1)

pub whole-IsNumbers : IsNumbers whole
whole-IsNumbers = record {
  print_injective = λ m n fm fn h. decimal-injective m n h;
  print_Lacks = λ n f. digits_Lacks (decimal n) (decimal-IsDigit n);
}
