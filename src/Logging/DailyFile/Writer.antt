-- ===== src/Logging/DailyFile/Writer.antt =====
-- The trace of the writer of a daily file: its commands, reports and attempts to make the directory,
-- and what changes none of them.
use mitools.Prelude.{
  Distinct, arith, inl, inr, sym, ◌∙◌, ap, ℕ, suc, ◌+◌, ◌≡◌, refl, Bool-cases, List, [], ◌∷◌, ◌++◌,
  append-nil, append_assoc, Text, same, any,
}
use mitools.Logging.DailyFile.{
  FileCommand, write, flush, FileEffect, made, listed, unlinked, appended, answered, reported,
  FileWriter, did, report,
}

-- The commands that have been carried out, a failed append among them.
abbrev pub command_of : FileEffect → List FileCommand
command_of (appended path line failure) = write path line ∷ []
command_of (answered id) = flush id ∷ []
command_of e = []

abbrev pub commands : List FileEffect → List FileCommand
commands [] = []
commands (e ∷ es) = command_of e ++ commands es

-- The reports, the last one first.
abbrev pub reports : List FileEffect → List Text → List Text
reports [] earlier = earlier
reports (reported what ∷ es) earlier = reports es (what ∷ earlier)
reports (e ∷ es) earlier = reports es earlier

abbrev pub makings : List FileEffect → ℕ
makings [] = 0
makings (made ∷ es) = suc (makings es)
makings (e ∷ es) = makings es

pub commands-append : (es fs : List FileEffect) → commands (es ++ fs) ≡ commands es ++ commands fs
commands-append [] fs = refl
commands-append (e ∷ es) fs =
    rw (commands-append es fs) (sym (append_assoc (command_of e) (commands es) (commands fs)))

pub makings-append : (es fs : List FileEffect) → makings (es ++ fs) ≡ makings es + makings fs
makings-append [] fs = omega arith
makings-append (made ∷ es) fs = omega (arith, makings-append es fs)
makings-append (e ∷ es) fs = makings-append es fs

reports-append :
    (es fs : List FileEffect) (earlier : List Text)
    → reports (es ++ fs) earlier ≡ reports fs (reports es earlier)
reports-append [] fs earlier = refl
reports-append (reported what ∷ es) fs earlier = reports-append es fs (what ∷ earlier)
reports-append (e ∷ es) fs earlier = reports-append es fs earlier

-- The reports are those remembered, and none is made twice.
pub record Reports (w : FileWriter) : Type 0 where
  pub remembered : reports w.trace [] ≡ w.reported_paths
  pub distinct : Distinct w.reported_paths

-- What goes on between commands: it takes none and carries none out.
pub record Goes (w v : FileWriter) : Type 0 where
  pub same_queue : v.queue ≡ w.queue
  pub same_flag : v.initialized ≡ w.initialized
  pub same_number : v.deferreds ≡ w.deferreds
  pub same_commands : commands v.trace ≡ commands w.trace
  pub same_makings : makings v.trace ≡ makings w.trace
  pub keeps : Reports w → Reports v

pub Goes-refl : (w : FileWriter) → Goes w w
Goes-refl w = record {
  same_queue = refl;
  same_flag = refl;
  same_number = refl;
  same_commands = refl;
  same_makings = refl;
  keeps = λ r. r;
}

pub Goes-trans : {u v w : FileWriter} → Goes u v → Goes v w → Goes u w
Goes-trans g h = record {
  same_queue = h.same_queue ∙ g.same_queue;
  same_flag = h.same_flag ∙ g.same_flag;
  same_number = h.same_number ∙ g.same_number;
  same_commands = h.same_commands ∙ g.same_commands;
  same_makings = h.same_makings ∙ g.same_makings;
  keeps = λ r. h.keeps (g.keeps r);
}

-- An effect that is no command, no report and no creation of the directory.
abbrev IsSilent : FileEffect → Type 0
IsSilent listed = Unit
IsSilent (unlinked path failure) = Unit
IsSilent e = ⊥

pub did-Reports :
    (e : FileEffect) (w : FileWriter)
    → reports (e ∷ []) w.reported_paths ≡ w.reported_paths
    → Reports w
    → Reports (did e w)
unfolding did
did-Reports e w h r = record {
  remembered = reports-append w.trace (e ∷ []) [] ∙ rw r.remembered h;
  distinct = r.distinct;
}

pub did-Goes : (e : FileEffect) (w : FileWriter) → IsSilent e → Goes w (did e w)
unfolding did
did-Goes listed w h = record {
  same_queue = refl;
  same_flag = refl;
  same_number = refl;
  same_commands = commands-append w.trace (listed ∷ []) ∙ append-nil (commands w.trace);
  same_makings = omega (arith, makings-append w.trace (listed ∷ []));
  keeps = did-Reports listed w refl;
}
did-Goes (unlinked path failure) w h = record {
  same_queue = refl;
  same_flag = refl;
  same_number = refl;
  same_commands =
      commands-append w.trace (unlinked path failure ∷ []) ∙ append-nil (commands w.trace);
  same_makings = omega (arith, makings-append w.trace (unlinked path failure ∷ []));
  keeps = did-Reports (unlinked path failure) w refl;
}
did-Goes made w h = absurd h
did-Goes (appended path line failure) w h = absurd h
did-Goes (answered id) w h = absurd h
did-Goes (reported what) w h = absurd h

pub report-Goes : (what : Text) (w : FileWriter) → Goes w (report what w)
unfolding report
report-Goes what w = elim (Bool-cases (any (same what) w.reported_paths)) [
  | inl e ↦ rw e (Goes-refl w)
  | inr e ↦ rw e (record {
    same_queue = refl;
    same_flag = refl;
    same_number = refl;
    same_commands = commands-append w.trace (reported what ∷ []) ∙ append-nil (commands w.trace);
    same_makings = omega (arith, makings-append w.trace (reported what ∷ []));
    keeps = λ r. record {
      remembered = reports-append w.trace (reported what ∷ []) [] ∙ ap (◌∷◌ what) r.remembered;
      distinct = (e, r.distinct);
    };
  })
]
