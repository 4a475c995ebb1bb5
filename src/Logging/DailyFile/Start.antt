-- ===== src/Logging/DailyFile/Start.antt =====
-- What the first write of a daily file leaves as it is: the directory and the sweep of old files.
use mitools.Prelude.{
  arith, inl, inr, sym, ◌∙◌, ℕ, ◌≤◌, ◌≡◌, refl, subst, Bool, true, false, Bool-cases, Option, none,
  some, List, [], ◌∷◌, ◌++◌, append-nil, Text, codes, ltb, if◌then◌else◌, Result, ok, err,
}
use mitools.Errors.{Cause}
use mitools.Logging.DailyFile.{
  DailyFileSinkOptions, made, listed, unlinked, Entry, Disk, FileWriter, did, is_log_name, is_old,
  sweep_stat, sweep_entries, sweep_names, sweep_old, after_made, retained, init,
}
use mitools.Logging.DailyFile.Writer.{
  commands, makings, commands-append, makings-append, Reports, did-Reports, Goes, Goes-refl,
  Goes-trans, did-Goes, report-Goes,
}

abbrev pub one_if : Bool → ℕ
one_if true = 1
one_if false = 0

pub one_if-le : (b : Bool) → one_if b ≤ 1
one_if-le true = omega arith
one_if-le false = omega arith

module _ (iso : ℕ → Text) (local : ℕ → ℕ × ℕ × ℕ) (join : Text → Text → Text)
    (options : DailyFileSinkOptions) where
  sweep_entries-Goes :
      (now : ℕ) (es : List Entry) (w : FileWriter)
      → Goes w (sweep_entries iso local join options now es w)
  unfolding sweep_entries
  sweep_entries-Goes now [] w = Goes-refl w
  sweep_entries-Goes now (e ∷ es) w =
      Goes-trans (one (is_log_name iso local join options e.name) e.mtime)
        (sweep_entries-Goes now es _)
    where
      removed :
          (b : Bool)
          → Goes w (if b then did (unlinked (join options.directory e.name) e.unlinking) w else w)
      removed true = did-Goes (unlinked (join options.directory e.name) e.unlinking) w tt
      removed false = Goes-refl w

      one :
          (b : Bool) (m : Result Cause ℕ)
          → Goes w (if b then sweep_stat iso local join options now e m w else w)
      one true (ok mtime) = removed (is_old iso local join options now mtime)
      one true (err cause) = Goes-refl w
      one false m = Goes-refl w

  sweep_old-Goes : (disk : Disk) (w : FileWriter) → Goes w (sweep_old iso local join options disk w)
  unfolding sweep_old
  sweep_old-Goes disk w = go disk.entries
    where
      go :
          (r : Result Cause (List Entry)) → Goes w (sweep_names iso local join options disk.now r w)
      go (ok entries) =
          Goes-trans (did-Goes listed w tt) (sweep_entries-Goes disk.now entries (did listed w))
      go (err cause) = report-Goes (codes "sweep " ++ options.directory) w

  -- What `init` leaves as it is; afterwards the writer is initialized.
  pub record Starts (w v : FileWriter) : Type 0 where
    pub same_queue : v.queue ≡ w.queue
    pub same_number : v.deferreds ≡ w.deferreds
    pub same_commands : commands v.trace ≡ commands w.trace
    pub keeps : Reports w → Reports v
    pub once : makings w.trace ≤ one_if w.initialized → makings v.trace ≤ one_if v.initialized

  pub Starts-Goes : {u v w : FileWriter} → Starts u v → Goes v w → Starts u w
  Starts-Goes {u} {v} {w} s g = record {
    same_queue = g.same_queue ∙ s.same_queue;
    same_number = g.same_number ∙ s.same_number;
    same_commands = g.same_commands ∙ s.same_commands;
    keeps = λ r. g.keeps (s.keeps r);
    once = λ l. rw (g.same_makings, g.same_flag) (s.once l);
  }

  pub Starts-refl : (w : FileWriter) → Starts w w
  Starts-refl w = record {
    same_queue = refl;
    same_number = refl;
    same_commands = refl;
    keeps = λ r. r;
    once = λ l. l;
  }

  abbrev flagged : FileWriter → FileWriter
  flagged w = record w { initialized = true }

  flagged-Reports : (w : FileWriter) → Reports w → Reports (flagged w)
  flagged-Reports w r = record { remembered = r.remembered; distinct = r.distinct }

  flag-le : (b : Bool) (n : ℕ) → b ≡ false → n ≤ one_if b → n ≤ 0
  flag-le b n e l = rw e at l

  after_made-Starts :
      (disk : Disk) (failure : Option Cause) (w : FileWriter)
      → w.initialized ≡ false
      → Starts w (after_made iso local join options disk failure (flagged w))
  unfolding did
  after_made-Starts disk (some cause) w e =
      Starts-Goes flagged_only (report-Goes (codes "mkdir " ++ options.directory) (flagged w))
    where
      flagged_only : Starts w (flagged w)
      flagged_only = record {
        same_queue = refl;
        same_number = refl;
        same_commands = refl;
        keeps = flagged-Reports w;
        once = λ l. omega (arith, flag-le w.initialized (makings w.trace) e l);
      }
  after_made-Starts disk none w e = Starts-Goes make (swept (ltb 0 (retained options.retain_days)))
    where
      make : Starts w (did made (flagged w))
      make = record {
        same_queue = refl;
        same_number = refl;
        same_commands = commands-append w.trace (made ∷ []) ∙ append-nil (commands w.trace);
        keeps = λ r. did-Reports made (flagged w) refl (flagged-Reports w r);
        once = λ l. omega (
          arith,
          flag-le w.initialized (makings w.trace) e l,
          makings-append w.trace (made ∷ []),
        );
      }

      swept :
          (b : Bool)
          → Goes (did made (flagged w)) (
              if b
              then sweep_old iso local join options disk (did made (flagged w))
              else did made (flagged w))
      swept true = sweep_old-Goes disk (did made (flagged w))
      swept false = Goes-refl (did made (flagged w))

  pub init-Starts : (disk : Disk) (w : FileWriter) → Starts w (init iso local join options disk w)
  unfolding init
  init-Starts disk w = elim (Bool-cases w.initialized) [
    | inl e ↦ subst (λ b. Starts w (if b then w else after)) (sym e) (Starts-refl w)
    | inr e ↦
        subst (λ b. Starts w (if b then w else after)) (sym e)
          (after_made-Starts disk disk.making w e)
  ]
    where
      after : FileWriter
      after = after_made iso local join options disk disk.making (flagged w)
