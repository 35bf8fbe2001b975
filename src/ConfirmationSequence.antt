-- ===== src/ConfirmationSequence.antt =====
-- The confirmation sequence of a booking: `runConfirmationSequence` of
-- src/workers/confirmationSequence.run.ts with the job data of confirmationSequence.types.ts. The
-- senders are parameters over a world that they change, and their outcome includes the timeout of a
-- step. Reporting of progress does not fail, as the worker wires it; logging is left out.
pub mod Steps
pub mod Laws
use Prim.Native.String.{String}
use vaketta_backend.Prelude.{
  ℕ, zero, suc, ◌+◌, Bool, true, false, Option, none, some, List, [], ◌∷◌, ◌++◌, if◌then◌else◌,
}

pub data RefType : Type 0 where
  template saved_reply : RefType

-- A record of strings by key; a lookup finds the first entry of a key.
abbrev pub Vars : Type 0
Vars = List (String × String)

pub record ConfirmationStepJob : Type 0 where
  pub step_id : String
  pub ref_type : RefType
  pub ref_id : String
  pub skip : Bool
  pub variables : Vars

pub record ConfirmationSequenceJobData : Type 0 where
  pub hotel_id : String
  pub booking_id : String
  pub guest_id : String
  pub guest_phone : String
  pub from_phone : String
  pub channel : String
  pub vars : Vars
  pub steps : List ConfirmationStepJob

pub data StepRunStatus : Type 0 where
  pending sending sent failed skipped : StepRunStatus

pub record StepProgress : Type 0 where
  pub step_id : String
  pub index : ℕ
  pub ref_type : RefType
  pub ref_id : String
  pub status : StepRunStatus
  pub error : Option String

-- The senders: `none` is success, `some` the message of the error that the step throws.
pub record StepDeps (W : Type 0) : Type 0 where
  pub send_template : String → String → String → Vars → W → W × Option String
  pub send_saved_reply : ConfirmationSequenceJobData → String → W → W × Option String
  pub load_saved_reply_body : String → String → W → W × Option String
  pub interpolate : String → Vars → String

-- The events of the hotel's channel, in the order in which they are emitted.
pub data Emitted : Type 0 where
  confirmation_step : StepProgress → Emitted
  confirmation_done : ℕ → ℕ → ℕ → Emitted

-- The local variables of a run, with what it has emitted and reported.
pub record Run (W : Type 0) : Type 0 where
  pub sent_count : ℕ
  pub failed_count : ℕ
  pub skipped_count : ℕ
  pub progress : List StepProgress
  pub emitted : List Emitted
  pub reported : List (List StepProgress)
  pub world : W

-- An entry of the progress that starts out at its index.
abbrev pub progress_of : ConfirmationStepJob → ℕ → StepRunStatus → Option String → StepProgress
progress_of step i status error = record {
  step_id = step.step_id;
  index = i;
  ref_type = step.ref_type;
  ref_id = step.ref_id;
  status = status;
  error = error;
}

unfoldable pub initial_progress : ℕ → List ConfirmationStepJob → List StepProgress
initial_progress i [] = []
initial_progress i (s ∷ ss) = progress_of s i pending none ∷ initial_progress (i + 1) ss

-- `progress[i].status = …`, with the error where there is one.
unfoldable pub set_status :
    ℕ → StepRunStatus → Option String → List StepProgress → List StepProgress
set_status i status error [] = []
set_status zero status error (p ∷ ps) = record p { status = status; error = error } ∷ ps
set_status (suc i) status error (p ∷ ps) = p ∷ set_status i status error ps

module _ {W : Type 0} where
  -- Setting a step's status, `persist()` and the event of the step.
  unfoldable pub mark : ConfirmationStepJob → ℕ → StepRunStatus → Option String → Run W → Run W
  mark step i status error st =
      let progress = set_status i status error st.progress in
      record st {
        progress = progress;
        reported = st.reported ++ (progress ∷ []);
        emitted = st.emitted ++ (confirmation_step (progress_of step i status error) ∷ []);
      }

  -- A saved reply that is not found is an error of its own.
  unfoldable pub send_body :
      Option String → ConfirmationSequenceJobData → StepDeps W → W → W × Option String
  send_body none job deps w = (w, some "Saved reply not found")
  send_body (some body) job deps w = deps.send_saved_reply job (deps.interpolate body job.vars) w

  unfoldable pub send_by :
      RefType
      → ConfirmationStepJob
      → ConfirmationSequenceJobData
      → StepDeps W
      → W
      → W × Option String
  unfolding send_body
  send_by template step job deps w =
      deps.send_template job.hotel_id job.guest_id step.ref_id (step.variables ++ job.vars) w
  send_by saved_reply step job deps w =
      let loaded = deps.load_saved_reply_body job.hotel_id step.ref_id w in
      send_body loaded.1 job deps loaded.0

  -- What follows a send: the step counts as sent, or as failed with its message.
  unfoldable pub settle : Option String → ConfirmationStepJob → ℕ → Run W → Run W
  settle none step i st = mark step i sent none (record st { sent_count = st.sent_count + 1 })
  settle (some message) step i st =
      mark step i failed (some message) (record st { failed_count = st.failed_count + 1 })

  -- A step, by whether it is to be skipped.
  unfoldable pub skip_or_send :
      Bool → ConfirmationSequenceJobData → StepDeps W → ConfirmationStepJob → ℕ → Run W → Run W
  unfolding send_by
  skip_or_send true job deps step i st =
      mark step i skipped none (record st { skipped_count = st.skipped_count + 1 })
  skip_or_send false job deps step i st =
      let st' = mark step i sending none st in
      let sending_out = send_by step.ref_type step job deps st'.world in
      settle sending_out.1 step i (record st' { world = sending_out.0 })

  unfoldable pub run_step :
      ConfirmationSequenceJobData → StepDeps W → ConfirmationStepJob → ℕ → Run W → Run W
  run_step job deps step i st = skip_or_send step.skip job deps step i st

  unfoldable pub run_steps :
      ConfirmationSequenceJobData → StepDeps W → List ConfirmationStepJob → ℕ → Run W → Run W
  run_steps job deps [] i st = st
  run_steps job deps (s ∷ ss) i st = run_steps job deps ss (i + 1) (run_step job deps s i st)

  unfoldable pub run_confirmation_sequence : ConfirmationSequenceJobData → StepDeps W → W → Run W
  run_confirmation_sequence job deps w =
      let progress = initial_progress 0 job.steps in
      let st = run_steps job deps job.steps 0 (record {
        sent_count = 0;
        failed_count = 0;
        skipped_count = 0;
        progress = progress;
        emitted = [];
        reported = progress ∷ [];
        world = w;
      }) in
      record st {
        emitted =
            st.emitted ++ (confirmation_done st.sent_count st.failed_count st.skipped_count ∷ []);
      }
