-- ===== src/ConfirmationSequence/Laws.antt =====
-- A whole run of a confirmation sequence: its progress, its counts and its events.
use vaketta_backend.Prelude.{
  ℕ, ◌+◌, ◌≡◌, refl, sym, subst, ap, ◌∙◌, arith, List, [], ◌∷◌, ◌++◌, length, sum_by, length-append,
}
use vaketta_backend.ConfirmationSequence.{
  Emitted, StepProgress, ConfirmationStepJob, ConfirmationSequenceJobData, StepDeps,
  confirmation_done, Run, initial_progress, run_step, run_steps, run_confirmation_sequence,
}
use vaketta_backend.ConfirmationSequence.Steps.{
  is_sent, is_failed, is_skipped, settled_events, AllEnded, append_assoc, append-nil, Adds,
  run_step-Adds,
}

module _ {W : Type 0} where
  -- One step after another: what the first adds stands before what the others add.
  Adds-trans :
      (st mid out : Run W) (pre : List StepProgress) (p : StepProgress)
      (after new rest : List StepProgress)
      → Adds st mid pre (p ∷ []) after
      → Adds mid out (pre ++ (p ∷ [])) new rest
      → Adds st out pre (p ∷ new) rest
  Adds-trans st mid out pre p after new rest a b = record {
    progressed = b.progressed ∙ append_assoc pre (p ∷ []) (new ++ rest);
    events =
        b.events
        ∙ ap (λ es. es ++ new) a.events
        ∙ append_assoc (settled_events st.emitted) (p ∷ []) new;
    sents = omega (arith, a.sents, b.sents);
    fails = omega (arith, a.fails, b.fails);
    skips = omega (arith, a.skips, b.skips);
  }

  run_steps-Adds :
      (job : ConfirmationSequenceJobData) (deps : StepDeps W) (ss : List ConfirmationStepJob)
      (pre : List StepProgress) (i : ℕ) (st : Run W)
      → i ≡ length pre
      → st.progress ≡ pre ++ initial_progress i ss
      → (new : List StepProgress) × AllEnded job deps ss i st.world new
        × Adds st (run_steps job deps ss i st) pre new []
  unfolding run_steps initial_progress
  run_steps-Adds job deps [] pre i st e h = (
    [],
    tt,
    record {
      progressed = h;
      events = sym (append-nil (settled_events st.emitted));
      sents = omega arith;
      fails = omega arith;
      skips = omega arith;
    },
  )
  run_steps-Adds job deps (s ∷ ss) pre i st e h =
      let after = initial_progress (length pre + 1) ss in
      let (p, id, index, ended, kept, first) = run_step-Adds job deps s pre after st (rw e at h) in
      let mid = run_step job deps s (length pre) st in
      let next : length pre + 1 ≡ length (pre ++ (p ∷ [])) =
        omega (arith, length-append pre (p ∷ [])) in
      let (new, all, adds) =
        run_steps-Adds job deps ss (pre ++ (p ∷ [])) (length pre + 1) mid next
          (first.progressed ∙ sym (append_assoc pre (p ∷ []) after)) in
      let out = run_steps job deps ss (length pre + 1) mid in
      rw e (
        p ∷ new,
        (
          record { same_id = id; same_index = index; ended = ended },
          subst (λ w. AllEnded job deps ss (length pre + 1) w new) kept all,
        ),
        Adds-trans st mid out pre p after new [] first adds,
      )

-- Every step of a sequence comes to its end, once and in order, whether or not the steps before it
-- failed: skipped if it was to be, and else sent, or failed exactly where its send throws in the world
-- that the steps before it left. The last event carries the three counts, which are those of the
-- progress, and the events before it tell the ends of the steps as the progress does.
pub run_confirmation_sequence-AllEnded :
    {W : Type 0} (job : ConfirmationSequenceJobData) (deps : StepDeps W) (w : W)
    → let out = run_confirmation_sequence job deps w in
      let done = confirmation_done out.sent_count out.failed_count out.skipped_count in
      AllEnded job deps job.steps 0 w out.progress
      × ((before : List Emitted) × (out.emitted ≡ before ++ (done ∷ []))
          × (settled_events before ≡ out.progress))
      × (out.sent_count ≡ sum_by is_sent out.progress)
      × (out.failed_count ≡ sum_by is_failed out.progress)
      × (out.skipped_count ≡ sum_by is_skipped out.progress)
unfolding run_confirmation_sequence
run_confirmation_sequence-AllEnded job deps w =
    let progress = initial_progress 0 job.steps in
    let st : Run _ = record {
      sent_count = 0;
      failed_count = 0;
      skipped_count = 0;
      progress = progress;
      emitted = [];
      reported = progress ∷ [];
      world = w;
    } in
    let (new, all, adds) = run_steps-Adds job deps job.steps [] 0 st refl refl in
    let out = run_steps job deps job.steps 0 st in
    let whole : out.progress ≡ new = adds.progressed ∙ append-nil new in
    let none_yet : settled_events [] ≡ [] = unfold settled_events in refl in
    let events : settled_events out.emitted ≡ new = adds.events ∙ ap (λ es. es ++ new) none_yet in
    let ended : AllEnded job deps job.steps 0 w out.progress = rw whole all in
    (
      ended,
      (out.emitted, refl, events ∙ sym whole),
      rw whole (omega (arith, adds.sents)),
      rw whole (omega (arith, adds.fails)),
      rw whole (omega (arith, adds.skips)),
    )
