-- ===== src/Logging/Feeds.antt =====
-- All sinks are fed the same items in the same order, whatever the taps, hooks and other sinks do.
use mitools.Prelude.{
  inl, inr, sym, ◌∙◌, ap, ◌≡◌, refl, Bool, true, false, Bool-cases, Option, none, some, List, [],
  ◌∷◌, ◌++◌, map, keep, keep-append, Text, if◌then◌else◌,
}
use mitools.Logging.{LogItem, reaches}
use mitools.Logging.Service.{
  Program, done, fails, logs, LoggerOptions, Running, LoggerService, threshold, report, written,
  write_all, write_sinks, emit_with, emit_inside, run_program, run_tap, emit,
}

-- The sink alone, given these items one after the other.
abbrev pub feed : {S : Type 0} → List LogItem → Running S → Running S
feed [] r = r
feed (item ∷ items) r = feed items (written r (r.sink.write item r.state))

-- The items at or above the level of the options.
abbrev pub shown : LoggerOptions → List LogItem → List LogItem
shown options = keep (λ item. reaches (threshold options.level) item.level)

abbrev pub program_items : Program → List LogItem
program_items done = []
program_items (fails cause) = []
program_items (logs item p) = item ∷ program_items p

abbrev pub tap_items : Option (LogItem → Program) → LogItem → List LogItem
tap_items none item = []
tap_items (some tap) item = program_items (tap item)

-- What an emit lets out: the log calls of the tap, unless it is inside a hook, and the item.
abbrev pub emitted : LoggerOptions → Bool → LogItem → List LogItem
emitted options inside_hook item =
    if inside_hook then item ∷ [] else tap_items options.on_log item ++ item ∷ []

module _ {S : Type 0} where
  feed-append : (xs ys : List LogItem) (r : Running S) → feed (xs ++ ys) r ≡ feed ys (feed xs r)
  feed-append [] ys r = refl
  feed-append (x ∷ xs) ys r = feed-append xs ys (written r (r.sink.write x r.state))

  feeds-append :
      (xs ys : List LogItem) (rs : List (Running S))
      → map (feed ys) (map (feed xs) rs) ≡ map (feed (xs ++ ys)) rs
  feeds-append xs ys [] = refl
  feeds-append xs ys (r ∷ rs) = cc (feed-append xs ys r, feeds-append xs ys rs)

  pub feeds-nil : (rs : List (Running S)) → map (feed []) rs ≡ rs
  feeds-nil [] = refl
  feeds-nil (r ∷ rs) = ap (◌∷◌ r) (feeds-nil rs)

  write_all-feed :
      (item : LogItem) (rs : List (Running S)) → (write_all item rs).0 ≡ map (feed (item ∷ [])) rs
  unfolding write_all
  write_all-feed item [] = refl
  write_all-feed item (r ∷ rs) =
      ap (◌∷◌ (written r (r.sink.write item r.state))) (write_all-feed item rs)

module _ {S : Type 0} (options : LoggerOptions) where
  pub write_sinks-feed :
      (item : LogItem) (s : LoggerService S)
      → (write_sinks options item s).sinks ≡ map (feed (shown options (item ∷ []))) s.sinks
  unfolding write_sinks
  write_sinks-feed item s = elim (Bool-cases (reaches (threshold options.level) item.level)) [
    | inl e ↦ rw e (write_all-feed item s.sinks)
    | inr e ↦ rw e (sym (feeds-nil s.sinks))
  ]

  -- One emission after others.
  pub then-feed :
      (xs ys : List LogItem) (rs : List (Running S)) (after : List (Running S))
      → after ≡ map (feed (shown options ys)) (map (feed (shown options xs)) rs)
      → after ≡ map (feed (shown options (xs ++ ys))) rs
  then-feed xs ys rs after e =
      rw (keep-append (λ item. reaches (threshold options.level) item.level) xs ys, e)
        (feeds-append (shown options xs) (shown options ys) rs)

  run_program-feed :
      (what : Text) (p : Program) (s : LoggerService S)
      → (run_program options what p s).sinks ≡ map (feed (shown options (program_items p))) s.sinks
  unfolding run_program report emit_inside emit_with
  run_program-feed what done s = sym (feeds-nil s.sinks)
  run_program-feed what (fails cause) s = sym (feeds-nil s.sinks)
  run_program-feed what (logs item p) s =
      let later = run_program-feed what p (emit_inside options item s) in
      then-feed (item ∷ []) (program_items p) s.sinks _
        (later ∙ ap (map (feed (shown options (program_items p)))) (write_sinks-feed item s))

  run_tap-feed :
      (tap : Option (LogItem → Program)) (item : LogItem) (s : LoggerService S)
      → (run_tap options tap item s).sinks ≡ map (feed (shown options (tap_items tap item))) s.sinks
  run_tap-feed none item s = sym (feeds-nil s.sinks)
  run_tap-feed (some tap) item s = run_program-feed _ (tap item) s

  pub emit-feed :
      (inside_hook : Bool) (item : LogItem) (s : LoggerService S)
      → (emit options inside_hook item s).sinks
        ≡ map (feed (shown options (emitted options inside_hook item))) s.sinks
  unfolding emit emit_with
  emit-feed true item s = write_sinks-feed item s
  emit-feed false item s =
      let tapped = run_tap options options.on_log item s in
      then-feed (tap_items options.on_log item) (item ∷ []) s.sinks _ (
        write_sinks-feed item tapped
        ∙ ap (map (feed (shown options (item ∷ [])))) (run_tap-feed options.on_log item s))
