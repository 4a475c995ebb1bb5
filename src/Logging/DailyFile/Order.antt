-- ===== src/Logging/DailyFile/Order.antt =====
-- What the writer of a daily file has done and has yet to do, after any events.
use mitools.Prelude.{
  Distinct, arith, sym, ◌∙◌, ap, ℕ, suc, ◌≤◌, ◌≡◌, refl, subst, Option, none, some, List, [], ◌∷◌,
  ◌++◌, append-nil, append_assoc, Text, codes,
}
use mitools.Errors.{Cause}
use mitools.Logging.{LogItem}
use mitools.Logging.DailyFile.{
  DailyFileSinkOptions, FileCommand, write, flush, FileEffect, appended, answered, Disk, FileWriter,
  new_writer, did, init, report_failure, handle, take_next, write_command, offer, start_flush,
  write_item,
}
use mitools.Logging.DailyFile.Writer.{
  commands, reports, makings, commands-append, makings-append, Reports, did-Reports, Goes,
  Goes-refl, report-Goes,
}
use mitools.Logging.DailyFile.Start.{one_if, one_if-le, init-Starts}

-- What happens to the sink: a line, a flush, or the writer's next turn.
pub data FileEvent : Type 0 where
  writes : LogItem → FileEvent
  flushes : FileEvent
  takes : Disk → FileEvent

-- The commands given so far have been carried out in their order, up to those that wait; no report
-- is made twice, and the directory is made at most once.
pub record IsFileWriter (given : List FileCommand) (w : FileWriter) : Type 0 where
  pub in_order : commands w.trace ++ w.queue ≡ given
  pub remembered : Reports w
  pub once : makings w.trace ≤ one_if w.initialized

module _ (iso : ℕ → Text) (local : ℕ → ℕ × ℕ × ℕ) (join : Text → Text → Text)
    (options : DailyFileSinkOptions) where
  abbrev pub file_step : FileEvent → FileWriter → FileWriter
  file_step (writes item) w = write_item iso local join options item w
  file_step flushes w = (start_flush w).1
  file_step (takes disk) w = take_next iso local join options disk w.queue w

  abbrev pub file_run : List FileEvent → FileWriter → FileWriter
  file_run [] w = w
  file_run (e ∷ es) w = file_run es (file_step e w)

  -- The commands that the callers give, in order; the flushes are numbered.
  abbrev pub offered : List FileEvent → ℕ → List FileCommand
  offered [] id = []
  offered (writes item ∷ es) id = write_command iso local join options item ∷ offered es id
  offered (flushes ∷ es) id = flush id ∷ offered es (suc id)
  offered (takes disk ∷ es) id = offered es id

  report_failure-Goes :
      (path : Text) (failure : Option Cause) (w : FileWriter)
      → Goes w (report_failure iso local join options path failure w)
  report_failure-Goes path none w = Goes-refl w
  report_failure-Goes path (some cause) w = report-Goes (codes "append " ++ path) w

  -- An effect that carries a command out.
  did-IsFileWriter :
      (e : FileEffect) (command : FileCommand) (given : List FileCommand) (w : FileWriter)
      → commands (e ∷ []) ≡ command ∷ []
      → makings (e ∷ []) ≡ 0
      → ((earlier : List Text) → reports (e ∷ []) earlier ≡ earlier)
      → commands w.trace ++ command ∷ w.queue ≡ given
      → Reports w
      → makings w.trace ≤ one_if w.initialized
      → IsFileWriter given (did e w)
  unfolding did
  did-IsFileWriter e command given w c m r o h l = record {
    in_order =
        ap (λ xs. xs ++ w.queue)
          (commands-append w.trace (e ∷ []) ∙ ap (λ xs. commands w.trace ++ xs) c)
        ∙ append_assoc (commands w.trace) (command ∷ []) w.queue
        ∙ o;
    remembered = did-Reports e w (r w.reported_paths) h;
    once = omega (arith, makings-append w.trace (e ∷ []));
  }

  IsFileWriter-Goes :
      (given : List FileCommand) {w v : FileWriter}
      → Goes w v
      → IsFileWriter given w
      → IsFileWriter given v
  IsFileWriter-Goes given g h = record {
    in_order = rw (g.same_commands, g.same_queue) h.in_order;
    remembered = g.keeps h.remembered;
    once = rw (g.same_makings, g.same_flag) h.once;
  }

  -- A command that has been taken from the queue is carried out.
  handle-IsFileWriter :
      (disk : Disk) (command : FileCommand) (given : List FileCommand) (w : FileWriter)
      → commands w.trace ++ command ∷ w.queue ≡ given
      → Reports w
      → makings w.trace ≤ one_if w.initialized
      → IsFileWriter given (handle iso local join options disk command w)
  unfolding handle
  handle-IsFileWriter disk (flush id) given w o r l =
      did-IsFileWriter (answered id) (flush id) given w refl refl (λ ts. refl) o r l
  handle-IsFileWriter disk (write path line) given w o r l =
      let s = init-Starts iso local join options disk w in
      let e = appended path line disk.appending in
      let ready = init iso local join options disk w in
      IsFileWriter-Goes given (report_failure-Goes path disk.appending (did e ready)) (
        did-IsFileWriter e (write path line) given ready refl refl (λ ts. refl)
          (rw (s.same_commands, s.same_queue) o) (s.keeps r) (s.once l))

  offer-IsFileWriter :
      (command : FileCommand) (given : List FileCommand) (w : FileWriter)
      → IsFileWriter given w
      → IsFileWriter (given ++ command ∷ []) (offer command w)
  unfolding offer
  offer-IsFileWriter command given w h = record {
    in_order =
        sym (append_assoc (commands w.trace) w.queue (command ∷ []))
        ∙ ap (λ xs. xs ++ command ∷ []) h.in_order;
    remembered = record { remembered = h.remembered.remembered; distinct = h.remembered.distinct };
    once = h.once;
  }

  take_next-IsFileWriter :
      (disk : Disk) (given : List FileCommand) (w : FileWriter)
      → IsFileWriter given w
      → IsFileWriter given (take_next iso local join options disk w.queue w)
        × ((take_next iso local join options disk w.queue w).deferreds ≡ w.deferreds)
  unfolding take_next handle did
  take_next-IsFileWriter disk given w h = go w.queue h.in_order
    where
      taken :
          (command : FileCommand) (rest : List FileCommand)
          → commands w.trace ++ command ∷ rest ≡ given
          → IsFileWriter given
              (handle iso local join options disk command (record w { queue = rest }))
      taken command rest o =
          handle-IsFileWriter disk command given (record w { queue = rest }) o
            (record { remembered = h.remembered.remembered; distinct = h.remembered.distinct })
            h.once

      go :
          (queue : List FileCommand)
          → commands w.trace ++ queue ≡ given
          → IsFileWriter given (take_next iso local join options disk queue w)
            × ((take_next iso local join options disk queue w).deferreds ≡ w.deferreds)
      go [] o = (h, refl)
      go (flush id ∷ rest) o = (taken (flush id) rest o, refl)
      go (write path line ∷ rest) o =
          let v : FileWriter = record w { queue = rest } in
          (
            taken (write path line) rest o,
            (report_failure-Goes path disk.appending (
                  did (appended path line disk.appending)
                    (init iso local join options disk v))).same_number
                ∙ (init-Starts iso local join options disk v).same_number,
          )

  file_step-IsFileWriter :
      (e : FileEvent) (given : List FileCommand) (w : FileWriter)
      → IsFileWriter given w
      → IsFileWriter (given ++ offered (e ∷ []) w.deferreds) (file_step e w)
  unfolding write_item start_flush
  file_step-IsFileWriter (writes item) given w h =
      offer-IsFileWriter (write_command iso local join options item) given w h
  file_step-IsFileWriter flushes given w h =
      offer-IsFileWriter (flush w.deferreds) given (record w { deferreds = suc w.deferreds })
        (record { in_order = h.in_order; remembered = again h.remembered; once = h.once })
    where
      again : Reports w → Reports (record w { deferreds = suc w.deferreds })
      again r = record { remembered = r.remembered; distinct = r.distinct }
  file_step-IsFileWriter (takes disk) given w h =
      rw (append-nil given) (take_next-IsFileWriter disk given w h).0

  file_run-IsFileWriter :
      (es : List FileEvent) (given : List FileCommand) (w : FileWriter)
      → IsFileWriter given w
      → IsFileWriter (given ++ offered es w.deferreds) (file_run es w)
  unfolding write_item start_flush offer
  file_run-IsFileWriter [] given w h = rw (append-nil given) h
  file_run-IsFileWriter (writes item ∷ es) given w h =
      let command = write_command iso local join options item in
      rw⁻¹ (append_assoc given (command ∷ []) (offered es w.deferreds)) (
        file_run-IsFileWriter es (given ++ command ∷ []) (file_step (writes item) w)
          (file_step-IsFileWriter (writes item) given w h))
  file_run-IsFileWriter (flushes ∷ es) given w h =
      rw⁻¹ (append_assoc given (flush w.deferreds ∷ []) (offered es (suc w.deferreds))) (
        file_run-IsFileWriter es (given ++ flush w.deferreds ∷ []) (file_step flushes w)
          (file_step-IsFileWriter flushes given w h))
  file_run-IsFileWriter (takes disk ∷ es) given w h =
      let t = take_next-IsFileWriter disk given w h in
      subst (λ n. IsFileWriter (given ++ offered es n) (file_run es (file_step (takes disk) w))) t.1
        (file_run-IsFileWriter es given (file_step (takes disk) w) t.0)

  -- After any lines, flushes and turns of the writer, on a disk that may fail at each call: the
  -- commands carried out and those that wait are together the ones given, in their order, so a flush
  -- is answered after all lines before it have been appended or their append has failed; no failure
  -- is reported twice for one file or directory; and the directory is made at most once.
  pub daily_file-in_order :
      (es : List FileEvent)
      → (commands (file_run es new_writer).trace ++ (file_run es new_writer).queue ≡ offered es 0)
        × (Distinct (reports (file_run es new_writer).trace []))
        × (makings (file_run es new_writer).trace ≤ 1)
  unfolding new_writer
  daily_file-in_order es =
      let h = file_run-IsFileWriter es [] new_writer (record {
        in_order = refl;
        remembered = record { remembered = refl; distinct = tt };
        once = omega arith;
      }) in
      (
        h.in_order,
        rw h.remembered.remembered h.remembered.distinct,
        omega (arith, one_if-le (file_run es new_writer).initialized, h.once),
      )
