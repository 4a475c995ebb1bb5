-- ===== src/Proc/Lines/Clean.antt =====
-- The characters of a sanitized line of proc/index.ts.
use mitools.Prelude.{
  ℕ, zero, suc, ◌≤◌, ◌≡◌, ◌≢◌, false, not, [], ◌∷◌, Text, Lacks, All, arith, Bool-cases,
  Option-cases, inl, inr, ◌==◌, keep, map,
}
use mitools.Proc.Lines.{
  esc, sequence, strip_ansi, has_return, after_return, is_control, tab_to_space, sanitize_line,
}

strip_ansi-Lacks : (b n : ℕ) (s : Text) → Lacks b s → Lacks b (strip_ansi n s)
unfolding strip_ansi
strip_ansi-Lacks b n [] h = tt
strip_ansi-Lacks b (suc n) (c ∷ s) h = strip_ansi-Lacks b n s h.1
strip_ansi-Lacks b zero (c ∷ s) h = elim (Bool-cases (c == esc)) [
  | inl e ↦ elim (Option-cases (sequence s)) [
    | inl q ↦ rw (e, q) (h.0, strip_ansi-Lacks b 0 s h.1)
    | inr (n, q) ↦ rw (e, q) (strip_ansi-Lacks b n s h.1)
  ]
  | inr e ↦ rw e (h.0, strip_ansi-Lacks b 0 s h.1)
]

no_return-Lacks : (s : Text) → has_return s ≡ false → Lacks 13 s
no_return-Lacks [] h = tt
no_return-Lacks (c ∷ s) h = (λ e. ground arith, no_return-Lacks s (ground arith))

after_return-Lacks : (s : Text) → Lacks 13 (after_return s)
unfolding after_return
after_return-Lacks [] = tt
after_return-Lacks (c ∷ s) = elim (Bool-cases (has_return s)) [
  | inl r ↦ rw r (after_return-Lacks s)
  | inr r ↦ elim (Bool-cases (c == 13)) [
    | inl e ↦ rw (r, e) (no_return-Lacks s r)
    | inr e ↦ rw (r, e) (λ q. ground arith, no_return-Lacks s r)
  ]
]

after_return-keeps : (b : ℕ) (s : Text) → Lacks b s → Lacks b (after_return s)
unfolding after_return
after_return-keeps b [] h = tt
after_return-keeps b (c ∷ s) h = elim (Bool-cases (has_return s)) [
  | inl r ↦ rw r (after_return-keeps b s h.1)
  | inr r ↦ elim (Bool-cases (c == 13)) [ inl e ↦ rw (r, e) h.1 | inr e ↦ rw (r, e) h ]
]

abbrev pub IsPrintable : ℕ → Type 0
IsPrintable c = (32 ≤ c) × (c ≢ 127)

printable_lem :
    (c : ℕ) → c ≢ 10 → c ≢ 13 → is_control (tab_to_space c) ≡ false → IsPrintable (tab_to_space c)
unfolding is_control
printable_lem c n r h = (ground (arith, n, r), λ e. ground (arith, n, r))

clean-IsPrintable :
    (s : Text)
    → Lacks 10 s
    → Lacks 13 s
    → All IsPrintable (keep (λ c. not (is_control c)) (map tab_to_space s))
clean-IsPrintable [] n r = tt
clean-IsPrintable (c ∷ s) n r = elim (Bool-cases (is_control (tab_to_space c))) [
  | inl h ↦ rw h (clean-IsPrintable s n.1 r.1)
  | inr h ↦ rw h (printable_lem c n.0 r.0 h, clean-IsPrintable s n.1 r.1)
]

-- A sanitized line without a line feed has printable characters only: none below the space, and no
-- delete character.
pub sanitize_line-IsPrintable : (line : Text) → Lacks 10 line → All IsPrintable (sanitize_line line)
unfolding sanitize_line
sanitize_line-IsPrintable line h =
    clean-IsPrintable (after_return (strip_ansi 0 line))
      (after_return-keeps 10 (strip_ansi 0 line) (strip_ansi-Lacks 10 0 line h))
      (after_return-Lacks (strip_ansi 0 line))
