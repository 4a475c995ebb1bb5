-- ===== src/Logging/Flush.antt =====
-- How much the hooks have left to do, and that a flush comes to its end.
use mitools.Prelude.{
  arith, inl, inr, ℕ, zero, suc, ◌+◌, ◌≤◌, ◌≡◌, refl, Bool-cases, Option, none, some, List, [], ◌∷◌,
  ◌++◌, Text, length,
}
use mitools.Logging.{LogItem, reaches}
use mitools.Logging.Service.{
  Program, done, fails, logs, LoggerOptions, HookFiber, Picked, behind, pick, LoggerService,
  threshold, report, write_sinks, emit_with, emit_inside, step_program, step_hook, run_hook,
  flush_sinks, await_empty, when_empty, flush,
}

-- The steps that a program has left, its end included.
abbrev pub size : Program → ℕ
size done = 1
size (fails cause) = 1
size (logs item p) = suc (size p)

abbrev pub work : List HookFiber → ℕ
work [] = 0
work (f ∷ fs) = size f.program + work fs

work-append : (fs gs : List HookFiber) → work (fs ++ gs) ≡ work fs + work gs
work-append [] gs = omega arith
work-append (f ∷ fs) gs = omega (arith, work-append fs gs)

size-pos : (p : Program) → 1 ≤ size p
size-pos done = omega arith
size-pos (fails cause) = omega arith
size-pos (logs item p) = omega arith

abbrev picked_work : Option Picked → ℕ
picked_work none = 0
picked_work (some (before, f, after)) = work before + (size f.program + work after)

picked_work-behind :
    (f : HookFiber) (o : Option Picked) (n : ℕ)
    → picked_work o ≡ n
    → 1 ≤ n
    → picked_work (behind f o) ≡ size f.program + n
picked_work-behind f none n e l = absurd (omega arith)
picked_work-behind f (some (before, h, after)) n e l = omega arith

pick-work : (k : ℕ) (fs : List HookFiber) → picked_work (pick k fs) ≡ work fs
unfolding pick
pick-work k [] = refl
pick-work k (f ∷ []) = omega arith
pick-work zero (f ∷ g ∷ fs) = omega arith
pick-work (suc k) (f ∷ g ∷ fs) =
    picked_work-behind f (pick k (g ∷ fs)) (work (g ∷ fs)) (pick-work k (g ∷ fs))
      (omega (arith, size-pos g.program))

module _ {S : Type 0} (options : LoggerOptions) where
  write_sinks-hooks :
      (item : LogItem) (s : LoggerService S) → (write_sinks options item s).hooks ≡ s.hooks
  unfolding write_sinks
  write_sinks-hooks item s = elim (Bool-cases (reaches (threshold options.level) item.level)) [
    | inl e ↦ rw e
    | inr e ↦ rw e
  ]

  -- A log call from a tap or hook starts no hook.
  pub emit_inside-hooks :
      (item : LogItem) (s : LoggerService S) → (emit_inside options item s).hooks ≡ s.hooks
  unfolding emit_inside emit_with
  emit_inside-hooks item s = write_sinks-hooks item s

  step_program-work :
      (what : Text) (p : Program) (before after : List HookFiber) (s : LoggerService S)
      → suc (work (step_program options what p before after s).hooks)
        ≡ work before + (size p + work after)
  unfolding report
  step_program-work what done before after s = omega (arith, work-append before after)
  step_program-work what (fails cause) before after s = omega (arith, work-append before after)
  step_program-work what (logs item p) before after s =
      let f : HookFiber = record { what = what; program = p } in
      rw (emit_inside-hooks item (record s { hooks = before ++ f ∷ after }))
        (omega (arith, work-append before (f ∷ after)))

  -- Each step of a hook leaves less to do.
  run_hook-work :
      (k : ℕ) (s : LoggerService S) (n : ℕ)
      → work s.hooks ≤ suc n
      → work (run_hook options k s).hooks ≤ n
  unfolding run_hook
  run_hook-work k s n l = go (pick k s.hooks) (pick-work k s.hooks)
    where
      go :
          (o : Option Picked)
          → picked_work o ≡ work s.hooks
          → work (step_hook options o s).hooks ≤ n
      go none e = omega arith
      go (some (before, f, after)) e =
          omega (arith, step_program-work f.what f.program before after s)

  await_empty-work :
      (picks : List ℕ) (s : LoggerService S)
      → work s.hooks ≤ length picks
      → work (await_empty options picks s).hooks ≡ 0
  unfolding await_empty
  await_empty-work [] s l = omega arith
  await_empty-work (k ∷ ks) s l =
      await_empty-work ks (run_hook options k s) (run_hook-work k s (length ks) l)

  when_empty-some :
      (hooks : List HookFiber) (s : LoggerService S)
      → work hooks ≡ 0
      → when_empty hooks s ≡ some (record s { sinks = flush_sinks s.sinks })
  when_empty-some [] s e = refl
  when_empty-some (f ∷ fs) s e = absurd (omega (arith, size-pos f.program))

  -- A flush answers once the hooks have had as many steps as their programs have left, whichever
  -- fiber the scheduler picks for each step: the log calls of a hook start no hook. Then no hook is
  -- left, and each sink has been flushed.
  pub flush-answers :
      (picks : List ℕ) (s : LoggerService S)
      → work s.hooks ≤ length picks
      → flush options picks s
          ≡ some (record (await_empty options picks s) {
            sinks = flush_sinks (await_empty options picks s).sinks;
          })
        × (work (await_empty options picks s).hooks ≡ 0)
  unfolding flush
  flush-answers picks s l =
      let e = await_empty-work picks s l in
      (when_empty-some (await_empty options picks s).hooks (await_empty options picks s) e, e)
