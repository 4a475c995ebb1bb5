-- ===== src/LogFile/Sections.antt =====
-- What a log file contains after any sections, written or not.
use mitools.Prelude.{
  ◌≡◌, refl, sym, ◌∙◌, ap, true, false, Option, none, some, List, [], ◌∷◌, ◌++◌, append-nil, subst,
  append_assoc, Text,
}
use mitools.LogFile.{
  Mode, overwrite, append, LogFile, WriteFault, opening, writing, next_write_flag, section_text,
  write_file, section,
}

-- A section with what its write throws, if it does.
pub record Write : Type 0 where
  pub heading : Text
  pub content : Text
  pub fault : Option WriteFault

abbrev pub sections : List Write → LogFile × Text → LogFile × Text
sections [] state = state
sections (w ∷ ws) state =
    let after = section w.heading w.content w.fault state in sections ws (after.1, after.2)

-- What a write puts into the file.
abbrev written_if : Option WriteFault → Text → Text
written_if (some (opening cause)) text = []
written_if (some (writing cause part)) text = part
written_if none text = text

abbrev pub written : List Write → Text
written [] = []
written (w ∷ ws) = written_if w.fault (section_text w.heading w.content) ++ written ws

-- What the first write leaves of the text that was there.
abbrev kept_if : Option WriteFault → Text → Text
kept_if (some (opening cause)) old = old
kept_if (some (writing cause part)) old = []
kept_if none old = []

abbrev pub kept : Mode → List Write → Text → Text
kept append ws old = old
kept overwrite [] old = old
kept overwrite (w ∷ ws) old = kept_if w.fault old

write_file-append :
    (fault : Option WriteFault) (new old : Text)
    → write_file fault false new old ≡ old ++ written_if fault new
write_file-append (some (opening cause)) new old = sym (append-nil old)
write_file-append (some (writing cause part)) new old = refl
write_file-append none new old = refl

write_file-first :
    (fault : Option WriteFault) (new old : Text)
    → write_file fault true new old ≡ kept_if fault old ++ written_if fault new
write_file-first (some (opening cause)) new old = sym (append-nil old)
write_file-first (some (writing cause part)) new old = refl
write_file-first none new old = refl

-- A handle whose next write appends.
sections-append :
    (ws : List Write) (file : LogFile) (text : Text)
    → next_write_flag file.mode file ≡ (false, file)
    → (sections ws (file, text)).1 ≡ text ++ written ws
unfolding section
sections-append [] file text h = sym (append-nil text)
sections-append (w ∷ ws) file text h =
    let new = section_text w.heading w.content in
    subst (λ n. (sections ws (n.1, write_file w.fault n.0 new text)).1 ≡ text ++ written (w ∷ ws))
      (sym h)
      (sections-append ws file (write_file w.fault false new text) h
        ∙ ap (λ t. t ++ written ws) (write_file-append w.fault new text)
        ∙ append_assoc text (written_if w.fault new) (written ws))

-- After any sections through a fresh handle, the file holds what was there before, if the handle
-- appends, or has no sections, or if its first write has failed at the open of the file, and then
-- what each section has put, in their order: all of it when its write has succeeded, nothing when
-- the open has failed, and the part that was written when it has failed later. So in overwrite mode
-- the old text goes exactly when the first write opens the file, and a first write that fails at
-- the open leaves it for good.
pub sections-written :
    (path : Text) (mode : Mode) (ws : List Write) (old : Text)
    → (sections ws (record { file_path = path; mode = mode; has_truncated = false }, old)).1
      ≡ kept mode ws old ++ written ws
unfolding section next_write_flag
sections-written path append ws old =
    sections-append ws (record { file_path = path; mode = append; has_truncated = false }) old refl
sections-written path overwrite [] old = sym (append-nil old)
sections-written path overwrite (w ∷ ws) old =
    let new = section_text w.heading w.content in
    sections-append ws (record { file_path = path; mode = overwrite; has_truncated = true })
      (write_file w.fault true new old) refl
    ∙ ap (λ t. t ++ written ws) (write_file-first w.fault new old)
    ∙ append_assoc (kept_if w.fault old) (written_if w.fault new) (written ws)
