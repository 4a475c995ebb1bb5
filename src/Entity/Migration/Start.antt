-- ===== src/Entity/Migration/Start.antt =====
-- The rows that a migration reads are pending at its start.
use mitools.Prelude.{
  ◌≡◌, refl, subst, Bool, true, false, none, some, List, [], ◌∷◌, Text, same, same_iff, same_refl,
  same_sound, arith, Bool-cases, inl, inr, keep, All, All-keep, map, sym, ◌∙◌,
}
use mitools.Docstore.{RawRow, Blobs, LikeOperator, has_pk, like_prefix}
use mitools.Docstore.Like.{IsLike, like-like_prefix, starts_with-fold}
use mitools.Docstore.Keys.{row_at, IsKeyed, keep-IsKeyed}
use mitools.Entity.Migration.Rows.{Pending, claims, also_claimed}

still_present :
    (r : RawRow) (db rest : Blobs)
    → row_at r.pk rest ≡ none
    → All (λ s. row_at s.pk db ≡ some s) rest
    → All (λ s. row_at s.pk (r ∷ db) ≡ some s) rest
unfolding row_at has_pk
still_present r db [] h a = tt
still_present r db (s ∷ rest) h (e, a) = elim (Bool-cases (same s.pk r.pk)) [
  | inl hit ↦ cc (rw hit at h)
  | inr miss ↦
      let miss' : same r.pk s.pk ≡ false = ground (arith, same_iff s.pk r.pk, same_iff r.pk s.pk) in
      (rw miss' e, still_present r db rest (rw miss at h) a)
]

All-present : (db : Blobs) → IsKeyed db → All (λ s. row_at s.pk db ≡ some s) db
unfolding row_at has_pk
All-present [] k = tt
All-present (r ∷ rest) (fresh, k) =
    (rw same_refl, still_present r rest rest fresh (All-present rest k))

All-claimed : (rows : List RawRow) → All (λ r. claims (map (λ s. s.pk) rows) r.pk ≡ true) rows
All-claimed [] = tt
All-claimed (r ∷ rows) =
    (rw same_refl, also_claimed r.pk (map (λ s. s.pk) rows) rows (All-claimed rows))

rest_claims :
    (test : Text → Bool) (pk : Text) (r : RawRow) (rest : Blobs)
    → claims (map (λ s. s.pk) (keep (λ x. test x.pk) (r ∷ rest))) pk ≡ false
    → claims (map (λ s. s.pk) (keep (λ x. test x.pk) rest)) pk ≡ false
rest_claims test pk r rest h = elim (Bool-cases (test r.pk)) [
  | inl t ↦ ground (arith, rw t at h)
  | inr t ↦ rw t at h
]

covered :
    (test : Text → Bool) (pk : Text) (db : Blobs)
    → test pk ≡ true
    → claims (map (λ s. s.pk) (keep (λ r. test r.pk) db)) pk ≡ false
    → row_at pk db ≡ none
unfolding row_at has_pk
covered test pk [] t h = refl
covered test pk (r ∷ rest) t h = elim (Bool-cases (same r.pk pk)) [
  | inl hit ↦
      let e : r.pk ≡ pk = same_sound r.pk pk hit in
      let t' : test r.pk ≡ true = subst (λ j. test j ≡ true) (sym e) t in
      let own : same pk r.pk ≡ true = subst (λ j. same j r.pk ≡ true) e (same_refl r.pk) in
      cc (rw (t', own) at h)
  | inr miss ↦ rw miss (covered test pk rest t (rest_claims test pk r rest h))
]

-- At the start, where the keys of the rows read are the claimed ones.
pub Pending-start :
    (like : LikeOperator) (laws : IsLike like) (prefix : Text) (db : Blobs)
    → IsKeyed db
    → Pending prefix
        (map (λ r. r.pk) (keep (λ r. like (like_prefix prefix) r.pk) db))
        (keep (λ r. like (like_prefix prefix) r.pk) db)
        db
Pending-start like laws prefix db k = record {
  keyed = k;
  distinct = keep-IsKeyed _ db k;
  present = All-keep _ (λ r. like (like_prefix prefix) r.pk) db (All-present db k);
  are_claimed = All-claimed _;
  covers = λ pk c h.
      covered (like (like_prefix prefix)) pk db
        (like-like_prefix like laws prefix pk ∙ starts_with-fold prefix pk h) c;
}
