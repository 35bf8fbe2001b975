-- ===== src/ConfirmationSequence/Steps.antt =====
-- What one step of a confirmation sequence does to a run, however it ends.
use Prim.Native.String.{String}
use vaketta_backend.Prelude.{
  ℕ, ◌+◌, ◌≡◌, refl, ap, ◌∙◌, arith, Bool, true, false, Option, none, some, List, [], ◌∷◌, ◌++◌,
  if◌then◌else◌, length, sum_by,
}
use vaketta_backend.ConfirmationSequence.{
  StepProgress, ConfirmationStepJob, ConfirmationSequenceJobData, StepDeps, StepRunStatus, pending,
  sending, sent, failed, skipped, Emitted, confirmation_step, confirmation_done, Run, progress_of,
  set_status, mark, settle, skip_or_send, run_step, send_by,
}

abbrev pub is_sent : StepProgress → ℕ
is_sent p = elim (p.status) [ sent ↦ 1 | _ ↦ 0 ]

abbrev pub is_failed : StepProgress → ℕ
is_failed p = elim (p.status) [ failed ↦ 1 | _ ↦ 0 ]

abbrev pub is_skipped : StepProgress → ℕ
is_skipped p = elim (p.status) [ skipped ↦ 1 | _ ↦ 0 ]

abbrev is_sending : StepRunStatus → Bool
is_sending sending = true
is_sending pending = false
is_sending sent = false
is_sending failed = false
is_sending skipped = false

-- The events of the steps but for those that a step is being sent, in their order.
unfoldable pub settled_events : List Emitted → List StepProgress
settled_events [] = []
settled_events (confirmation_step p ∷ es) =
    let rest = settled_events es in if is_sending p.status then rest else p ∷ rest
settled_events (confirmation_done s f k ∷ es) = settled_events es

pub append_assoc : {A : Type 0} (xs ys zs : List A) → (xs ++ ys) ++ zs ≡ xs ++ (ys ++ zs)
append_assoc [] ys zs = refl
append_assoc (x ∷ xs) ys zs = ap (λ r. x ∷ r) (append_assoc xs ys zs)

pub append-nil : {A : Type 0} (xs : List A) → xs ++ [] ≡ xs
append-nil [] = refl
append-nil (x ∷ xs) = ap (λ r. x ∷ r) (append-nil xs)

pub settled_events-append :
    (es fs : List Emitted) → settled_events (es ++ fs) ≡ settled_events es ++ settled_events fs
unfolding settled_events
settled_events-append [] fs = refl
settled_events-append (confirmation_step p ∷ es) fs = ground (arith, settled_events-append es fs)
settled_events-append (confirmation_done s f k ∷ es) fs = settled_events-append es fs

set_status-append :
    (pre rest : List StepProgress) (p : StepProgress) (status : StepRunStatus)
    (error : Option String)
    → set_status (length pre) status error (pre ++ (p ∷ rest))
      ≡ pre ++ (record p { status = status; error = error } ∷ rest)
unfolding set_status
set_status-append [] rest p status error = refl
set_status-append (x ∷ pre) rest p status error =
    ap (λ r. x ∷ r) (set_status-append pre rest p status error)

-- The end of a step that is sent: `sent`, or `failed` where the send throws.
abbrev pub end_of_send : Option String → StepRunStatus
end_of_send none = sent
end_of_send (some message) = failed

module _ {W : Type 0} where
  -- The status in which a step ends in a world, and the world that its send leaves.
  abbrev pub end_of :
      Bool → ConfirmationSequenceJobData → StepDeps W → ConfirmationStepJob → W → W × StepRunStatus
  end_of true job deps s w = (w, skipped)
  end_of false job deps s w =
      let sending_out = send_by s.ref_type s job deps w in
      (sending_out.0, end_of_send sending_out.1)

  -- A step at an index has come to its end in a world.
  pub record Ended (job : ConfirmationSequenceJobData) (deps : StepDeps W) (s : ConfirmationStepJob)
      (i : ℕ) (w : W) (p : StepProgress) : Type 0 where
    pub same_id : p.step_id ≡ s.step_id
    pub same_index : p.index ≡ i
    pub ended : p.status ≡ (end_of s.skip job deps s w).1

  -- All steps, from an index and a world on, have come to their ends, each once and in order.
  abbrev pub AllEnded :
      ConfirmationSequenceJobData
      → StepDeps W
      → List ConfirmationStepJob
      → ℕ
      → W
      → List StepProgress
      → Type 0
  AllEnded job deps [] i w [] = Unit
  AllEnded job deps [] i w (p ∷ ps) = ⊥
  AllEnded job deps (s ∷ ss) i w [] = ⊥
  AllEnded job deps (s ∷ ss) i w (p ∷ ps) =
      Ended job deps s i w p × AllEnded job deps ss (i + 1) (end_of s.skip job deps s w).0 ps

  -- What a run adds to a state in which the steps of `pre` are over and those of `rest` are not begun.
  pub record Adds (st out : Run W) (pre new rest : List StepProgress) : Type 0 where
    pub progressed : out.progress ≡ pre ++ (new ++ rest)
    pub events : settled_events out.emitted ≡ settled_events st.emitted ++ new
    pub sents : out.sent_count ≡ st.sent_count + sum_by is_sent new
    pub fails : out.failed_count ≡ st.failed_count + sum_by is_failed new
    pub skips : out.skipped_count ≡ st.skipped_count + sum_by is_skipped new

  mark-progress :
      (s : ConfirmationStepJob) (pre rest : List StepProgress) (was status : StepRunStatus)
      (e error : Option String) (st : Run W)
      → st.progress ≡ pre ++ (progress_of s (length pre) was e ∷ rest)
      → (mark s (length pre) status error st).progress
        ≡ pre ++ (progress_of s (length pre) status error ∷ rest)
  unfolding mark
  mark-progress s pre rest was status e error st h =
      rw h (set_status-append pre rest (progress_of s (length pre) was e) status error)

  mark-settled_events :
      (s : ConfirmationStepJob) (i : ℕ) (status : StepRunStatus) (error : Option String)
      (st : Run W)
      → is_sending status ≡ false
      → settled_events (mark s i status error st).emitted
        ≡ settled_events st.emitted ++ (progress_of s i status error ∷ [])
  unfolding mark settled_events
  mark-settled_events s i status error st h =
      settled_events-append st.emitted (confirmation_step (progress_of s i status error) ∷ [])
      ∙ rw h refl

  settle-Adds :
      (outcome : Option String) (s : ConfirmationStepJob) (pre rest : List StepProgress)
      (was : StepRunStatus) (e : Option String) (st : Run W)
      → st.progress ≡ pre ++ (progress_of s (length pre) was e ∷ rest)
      → (p : StepProgress) × (p.step_id ≡ s.step_id)
        × (p.index ≡ length pre)
        × (p.status ≡ end_of_send outcome)
        × ((settle outcome s (length pre) st).world ≡ st.world)
        × Adds st (settle outcome s (length pre) st) pre (p ∷ []) rest
  unfolding settle
  settle-Adds none s pre rest was e st h =
      let st' = record st { sent_count = st.sent_count + 1 } in
      (
        progress_of s (length pre) sent none,
        refl,
        refl,
        refl,
        unfold mark in refl,
        record {
          progressed = mark-progress s pre rest was sent e none st' h;
          events = mark-settled_events s (length pre) sent none st' refl;
          sents = unfold mark in omega arith;
          fails = unfold mark in omega arith;
          skips = unfold mark in omega arith;
        },
      )
  settle-Adds (some message) s pre rest was e st h =
      let st' = record st { failed_count = st.failed_count + 1 } in
      (
        progress_of s (length pre) failed (some message),
        refl,
        refl,
        refl,
        unfold mark in refl,
        record {
          progressed = mark-progress s pre rest was failed e (some message) st' h;
          events = mark-settled_events s (length pre) failed (some message) st' refl;
          sents = unfold mark in omega arith;
          fails = unfold mark in omega arith;
          skips = unfold mark in omega arith;
        },
      )

  sending-settled_events :
      (s : ConfirmationStepJob) (i : ℕ) (st : Run W)
      → settled_events (mark s i sending none st).emitted ≡ settled_events st.emitted ++ []
  unfolding mark settled_events
  sending-settled_events s i st =
      settled_events-append st.emitted (confirmation_step (progress_of s i sending none) ∷ [])

  skip_or_send-Adds :
      (skip : Bool) (job : ConfirmationSequenceJobData) (deps : StepDeps W)
      (s : ConfirmationStepJob) (pre rest : List StepProgress) (st : Run W)
      → st.progress ≡ pre ++ (progress_of s (length pre) pending none ∷ rest)
      → (p : StepProgress) × (p.step_id ≡ s.step_id)
        × (p.index ≡ length pre)
        × (p.status ≡ (end_of skip job deps s st.world).1)
        × ((skip_or_send skip job deps s (length pre) st).world
            ≡ (end_of skip job deps s st.world).0)
        × Adds st (skip_or_send skip job deps s (length pre) st) pre (p ∷ []) rest
  unfolding skip_or_send
  skip_or_send-Adds true job deps s pre rest st h =
      let st' = record st { skipped_count = st.skipped_count + 1 } in
      (
        progress_of s (length pre) skipped none,
        refl,
        refl,
        refl,
        unfold mark in refl,
        record {
          progressed = mark-progress s pre rest pending skipped none none st' h;
          events = mark-settled_events s (length pre) skipped none st' refl;
          sents = unfold mark in omega arith;
          fails = unfold mark in omega arith;
          skips = unfold mark in omega arith;
        },
      )
  skip_or_send-Adds false job deps s pre rest st h =
      let st' = mark s (length pre) sending none st in
      let out = send_by s.ref_type s job deps st'.world in
      let marked = mark-progress s pre rest pending sending none none st h in
      let (p, id, index, ended, kept, adds) =
        settle-Adds out.1 s pre rest sending none (record st' { world = out.0 }) marked in
      (
        p,
        id,
        index,
        (unfold mark in ended),
        (unfold mark in kept),
        record {
          progressed = adds.progressed;
          events =
              adds.events
              ∙ ap (λ es. es ++ (p ∷ []))
                  (sending-settled_events s (length pre) st
                    ∙ append-nil (settled_events st.emitted));
          sents = unfold mark in adds.sents;
          fails = unfold mark in adds.fails;
          skips = unfold mark in adds.skips;
        },
      )

  pub run_step-Adds :
      (job : ConfirmationSequenceJobData) (deps : StepDeps W) (s : ConfirmationStepJob)
      (pre rest : List StepProgress) (st : Run W)
      → st.progress ≡ pre ++ (progress_of s (length pre) pending none ∷ rest)
      → (p : StepProgress) × (p.step_id ≡ s.step_id)
        × (p.index ≡ length pre)
        × (p.status ≡ (end_of s.skip job deps s st.world).1)
        × ((run_step job deps s (length pre) st).world ≡ (end_of s.skip job deps s st.world).0)
        × Adds st (run_step job deps s (length pre) st) pre (p ∷ []) rest
  unfolding run_step
  run_step-Adds job deps s pre rest st h = skip_or_send-Adds s.skip job deps s pre rest st h
