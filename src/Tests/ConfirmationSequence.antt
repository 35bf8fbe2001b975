-- ===== src/Tests/ConfirmationSequence.antt =====
-- A sequence of three steps: a template, a skipped step, and a saved reply that is not found. The world
-- is the number of messages sent.
use vaketta_backend.Prelude.{ℕ, ◌+◌, ◌≡◌, refl, true, false, none, [], ◌∷◌, List, ◌++◌, sum_by}
use vaketta_backend.ConfirmationSequence.{
  Emitted, confirmation_done, ConfirmationSequenceJobData, ConfirmationStepJob, StepDeps, template,
  saved_reply, run_confirmation_sequence, run_steps, run_step, skip_or_send, send_by, send_body,
  settle, mark, set_status, initial_progress,
}
use vaketta_backend.ConfirmationSequence.Steps.{
  AllEnded, settled_events, is_sent, is_failed, is_skipped,
}
use vaketta_backend.ConfirmationSequence.Laws.{run_confirmation_sequence-AllEnded}

abbrev welcome : ConfirmationStepJob
welcome = record {
  step_id = "welcome";
  ref_type = template;
  ref_id = "t1";
  skip = false;
  variables = [];
}

abbrev job : ConfirmationSequenceJobData
job = record {
  hotel_id = "h";
  booking_id = "b";
  guest_id = "g";
  guest_phone = "1";
  from_phone = "2";
  channel = "WHATSAPP";
  vars = [];
  steps =
      record welcome { step_id = "rules"; ref_type = saved_reply; ref_id = "r1" }
      ∷ record welcome { step_id = "map"; skip = true }
      ∷ welcome
      ∷ [];
}

abbrev deps : StepDeps ℕ
deps = record {
  send_template = λ hotel guest id vars w. (w + 1, none);
  send_saved_reply = λ sent_job text w. (w + 1, none);
  load_saved_reply_body = λ hotel id w. (w, none);
  interpolate = λ text vars. text;
}

-- The step that fails does not stop the template after it.
run_confirmation_sequence-job : (run_confirmation_sequence job deps 0).sent_count ≡ 1
unfolding run_confirmation_sequence run_steps run_step skip_or_send send_by send_body settle mark
    set_status initial_progress
run_confirmation_sequence-job = refl

run_confirmation_sequence-AllEnded_example :
    let out = run_confirmation_sequence job deps 0 in
    let done = confirmation_done out.sent_count out.failed_count out.skipped_count in
    AllEnded job deps job.steps 0 0 out.progress
    × ((before : List Emitted) × (out.emitted ≡ before ++ (done ∷ []))
        × (settled_events before ≡ out.progress))
    × (out.sent_count ≡ sum_by is_sent out.progress)
    × (out.failed_count ≡ sum_by is_failed out.progress)
    × (out.skipped_count ≡ sum_by is_skipped out.progress)
run_confirmation_sequence-AllEnded_example = run_confirmation_sequence-AllEnded job deps 0
