-- ===== src/PostProcessing/Views.antt =====
-- What the drafts of a run leave alone: the visible transcript.
use meeting_overlay_assistan.Base.{
  zero, suc, ◌≡◌, refl, ◌∙◌, arith, Bool-cases, Option-cases, inl, inr, ℕ, ◌+◌, ◌-◌, String, false,
  not, ◌&&◌, some, List, [], ◌∷◌, ◌==◌, string_eq, nat_eq,
}
use meeting_overlay_assistan.Base.Text.{strip, is_empty}
use meeting_overlay_assistan.Base.Outcome.{ok}
use meeting_overlay_assistan.Session.Entity.{MeetingSession}
use meeting_overlay_assistan.Jobs.Lifecycle.{status_text_eq}
use meeting_overlay_assistan.Jobs.Kinds.{SessionPostProcessingJob}
use meeting_overlay_assistan.PostProcessing.Fencing.{Result-cases}
use meeting_overlay_assistan.PostProcessing.Utterances.{
  Utterance, UtteranceTable, create, draft_source, next_sequence, save,
}
use meeting_overlay_assistan.PostProcessing.Builders.{SpeakerTranscriptSegment, utterance_of}
use meeting_overlay_assistan.PostProcessing.World.{World}
use meeting_overlay_assistan.PostProcessing.Canonical.{discard_provisional}
use meeting_overlay_assistan.PostProcessing.Runner.{Setting, persist_all}
use meeting_overlay_assistan.PostProcessing.Runs.{transcribed}
use meeting_overlay_assistan.Base.Rows.{keep_if, keep_if-last, keep_if-implied}
use meeting_overlay_assistan.PostProcessing.Utterances.{
  is_visible, try_save, delete_by_session, is_duplicate, Contention,
}
use meeting_overlay_assistan.PostProcessing.Runner.{persist_provisional_segment}

module _ {F : Type 0} where
  -- The rows of the table that are no drafts.
  unfoldable pub visible : UtteranceTable F → List (Utterance F)
  visible table = keep_if is_visible table

  pub visible-delete :
      (table : UtteranceTable F) (session_id : String)
      → visible (delete_by_session table session_id (some draft_source)) ≡ visible table
  unfolding visible delete_by_session
  visible-delete table session_id =
      keep_if-implied is_visible
        (λ (u : Utterance F).
          not (u.session_id == session_id && u.transcript_source == draft_source))
        table (λ u h. ground arith)

  -- The other transactions that an insert meets write no visible row.
  pub record IsUnseen (others : Contention F) : Type 0 where
    pub before_insert :
        (n : ℕ) (table : UtteranceTable F) → visible (others.before_insert n table) ≡ visible table
    pub before_read :
        (n : ℕ) (table : UtteranceTable F) → visible (others.before_read n table) ≡ visible table

  visible-try_save :
      (others : Contention F)
      → IsUnseen others
      → (attempts : ℕ) (table : UtteranceTable F) (u : Utterance F) → is_visible u ≡ false
      → visible (try_save others attempts table u).0 ≡ visible table
  unfolding visible try_save
  visible-try_save others unseen zero table u h = refl
  visible-try_save others unseen (suc attempts) table u h =
      let met = others.before_insert attempts table in
      let read = others.before_read attempts met in
      let before = unseen.before_insert attempts table in
      elim (Option-cases (others.broken attempts)) [
        | inr (e, broken) ↦ rw (broken, try_save) before
        | inl sound ↦ elim (Bool-cases (is_duplicate met u)) [
          | inl taken ↦
              rw (sound, taken, try_save)
                (visible-try_save others unseen attempts read
                    (record u { seq_num = next_sequence read u.session_id }) h
                  ∙ (unseen.before_read attempts met ∙ before))
          | inr free ↦ rw (sound, free, try_save) (keep_if-last is_visible met u h ∙ before)
        ]
      ]

  create-same : (u v : Utterance F) → create u ≡ ok v → v ≡ u
  unfolding create
  create-same u v h = ground arith

  module _ (env : Setting F) (s : MeetingSession) (job : SessionPostProcessingJob)
      (unseen : (n : ℕ) → IsUnseen (env.contention n)) where
    persist-visible :
        (segment : SpeakerTranscriptSegment F) (sequence : ℕ) (table : UtteranceTable F)
        → visible (persist_provisional_segment env s job segment sequence table).0 ≡ visible table
    unfolding persist_provisional_segment save
    persist-visible segment sequence table = elim (Bool-cases (is_empty (strip segment.text))) [
      | inl blank ↦ rw blank refl
      | inr full ↦
          let u =
            utterance_of (env.draft_id (sequence + 1)) s.id (some s.primary_input_source) job.id
              draft_source (sequence + 1) segment in
          elim (Result-cases (create u)) [
            | inl (e, refused) ↦ rw (full, refused) refl
            | inr (draft, made) ↦
                let same = create-same u draft made in
                let hidden : is_visible draft ≡ false = rw same (ground arith) in
                rw (full, made)
                  (visible-try_save (env.contention (sequence + 1)) (unseen (sequence + 1)) 3 table
                    draft hidden)
          ]
    ]

    persist_all-visible :
        (segments : List (SpeakerTranscriptSegment F)) (sequence : ℕ) (table : UtteranceTable F)
        → visible (persist_all env s job segments sequence table).0 ≡ visible table
    unfolding persist_all
    persist_all-visible [] sequence table = refl
    persist_all-visible (segment ∷ rest) sequence table =
        let one = persist_provisional_segment env s job segment sequence table in
        elim (Result-cases one.1) [
          | inl (e, failed) ↦ rw (failed, persist_all) (persist-visible segment sequence table)
          | inr (next, stored) ↦
              rw (stored, persist_all)
                (persist_all-visible rest next one.0 ∙ persist-visible segment sequence table)
        ]

    -- The transcription leaves the visible rows to the other transactions.
    pub transcribed-visible :
        (w : World F)
        → ((v : World F) → visible (env.meanwhile v).utterances ≡ visible v.utterances)
        → visible (transcribed env s job w).utterances ≡ visible w.utterances
    unfolding transcribed discard_provisional
    transcribed-visible w quiet =
        let w0 = discard_provisional s.id w in
        let first = next_sequence w0.utterances s.id - 1 in
        let drafts = persist_all env s job env.heard first w0.utterances in
        quiet (record w0 { utterances = drafts.0 })
        ∙ (persist_all-visible env.heard first w0.utterances ∙ visible-delete w.utterances s.id)
