-- ===== src/PostProcessing/Utterances.antt =====
-- server/app/domain/models/utterance.py and the table of utterances:
-- server/app/infrastructure/persistence/postgresql/repositories/postgresql_utterance_repository.py.
-- A confidence is of any type. What other transactions commit while a row is inserted is an argument.
use Prim.Native.Nat.{max}
use meeting_overlay_assistan.Base.{
  ℕ, zero, suc, ◌+◌, String, Bool, true, false, not, ◌&&◌, ◌||◌, Option, none, some, List, [], ◌∷◌,
  ◌++◌, ◌==◌, ◌!=◌, if◌then◌else◌, string_eq, nat_eq, ltb,
}
use meeting_overlay_assistan.Base.Integers.{ℤ, pos, lt}
use meeting_overlay_assistan.Base.Lists.{take}
use meeting_overlay_assistan.Base.Rows.{keep_if, sort_by}
use meeting_overlay_assistan.Base.Outcome.{Error, Result, ok, err, value_error, runtime_error}

pub record Utterance (F : Type 0) : Type 0 where
  pub id : String
  pub session_id : String
  pub seq_num : ℕ
  pub start_ms : ℤ
  pub end_ms : ℤ
  pub text : String
  pub confidence : F
  pub input_source : Option String
  pub stt_backend : Option String
  pub latency_ms : Option ℕ
  pub speaker_label : Option String
  pub transcript_source : String
  pub processing_job_id : Option String

abbrev pub draft_source : String
draft_source = "post_processing_draft"

abbrev pub UtteranceTable : Type 0 → Type 0
UtteranceTable F = List (Utterance F)

-- What an insert meets, by the number of attempts that are left after it: what other transactions
-- commit before the insert and before the next number is read, and an error of another kind.
pub record Contention (F : Type 0) : Type 0 where
  pub before_insert : ℕ → UtteranceTable F → UtteranceTable F
  pub before_read : ℕ → UtteranceTable F → UtteranceTable F
  pub broken : ℕ → Option Error

module _ {F : Type 0} where
  -- `Utterance.create` of the fields given: its two guards.
  unfoldable pub create : Utterance F → Result (Utterance F)
  create u =
      if ltb u.seq_num 1
      then err value_error
      else if lt u.start_ms (pos 0) || lt u.end_ms u.start_ms
      then err value_error
      else ok u

  abbrev pub is_post_processing_draft : Utterance F → Bool
  is_post_processing_draft u = u.transcript_source == draft_source

  abbrev pub is_visible : Utterance F → Bool
  is_visible u = not (is_post_processing_draft u)

  abbrev pub prefer : Bool → List (Utterance F) → List (Utterance F) → List (Utterance F)
  prefer false drafts others = others
  prefer true [] others = others
  prefer true (d ∷ drafts) others = d ∷ drafts

  unfoldable pub select_visible_utterances : Bool → List (Utterance F) → List (Utterance F)
  select_visible_utterances prefer_drafts items =
      prefer prefer_drafts (keep_if is_post_processing_draft items) (keep_if is_visible items)

  abbrev pub of_session : String → Utterance F → Bool
  of_session session_id u = u.session_id == session_id

  -- ORDER BY seq_num ASC
  unfoldable pub list_by_session : UtteranceTable F → String → List (Utterance F)
  list_by_session table session_id =
      sort_by (λ (a b : Utterance F). ltb a.seq_num b.seq_num)
        (keep_if (of_session session_id) table)

  -- `reversed` undoes ORDER BY seq_num DESC.
  unfoldable pub list_recent_by_session : UtteranceTable F → String → ℕ → List (Utterance F)
  list_recent_by_session table session_id limit =
      sort_by (λ (a b : Utterance F). ltb a.seq_num b.seq_num)
        (take limit (
          sort_by (λ (a b : Utterance F). ltb b.seq_num a.seq_num)
            (keep_if (of_session session_id) table)))

  -- `COALESCE(MAX(seq_num), 0)`
  unfoldable pub last_sequence : UtteranceTable F → String → ℕ
  last_sequence [] session_id = 0
  last_sequence (u ∷ rest) session_id =
      let later = last_sequence rest session_id in
      if u.session_id == session_id then max u.seq_num later else later

  unfoldable pub next_sequence : UtteranceTable F → String → ℕ
  unfolding last_sequence
  next_sequence table session_id = last_sequence table session_id + 1

  -- DELETE, of one source or of all.
  unfoldable pub delete_by_session : UtteranceTable F → String → Option String → UtteranceTable F
  delete_by_session table session_id none =
      keep_if (λ (u : Utterance F). u.session_id != session_id) table
  delete_by_session table session_id (some source) =
      keep_if
        (λ (u : Utterance F). not (u.session_id == session_id && u.transcript_source == source))
        table

  unfoldable pub save_many : UtteranceTable F → List (Utterance F) → UtteranceTable F
  save_many table utterances = table ++ utterances

  -- The unique constraint on the session and the number.
  unfoldable pub is_taken : UtteranceTable F → String → ℕ → Bool
  is_taken [] session_id seq_num = false
  is_taken (u ∷ rest) session_id seq_num =
      (u.session_id == session_id && u.seq_num == seq_num) || is_taken rest session_id seq_num

  -- The primary key.
  unfoldable pub has_id : UtteranceTable F → String → Bool
  has_id [] id = false
  has_id (u ∷ rest) id = u.id == id || has_id rest id

  -- The errors that are taken for a number in use.
  unfoldable pub is_duplicate : UtteranceTable F → Utterance F → Bool
  unfolding has_id is_taken
  is_duplicate table u = has_id table u.id || is_taken table u.session_id u.seq_num

  -- The attempts are counted down. An insert that breaks a unique constraint, that of the ids or
  -- that of the numbers, is followed by another one under the next number.
  unfoldable pub try_save :
      Contention F → ℕ → UtteranceTable F → Utterance F → UtteranceTable F × Result (Utterance F)
  unfolding is_duplicate next_sequence
  try_save others zero table u = (table, err runtime_error)
  try_save others (suc attempts) table u =
      let met = others.before_insert attempts table in
      let read = others.before_read attempts met in
      let retried =
        try_save others attempts read (record u { seq_num = next_sequence read u.session_id }) in
      elim (others.broken attempts) [
        | some e ↦ (met, err e)
        | none ↦ if is_duplicate met u then retried else (met ++ u ∷ [], ok u)
      ]

  unfoldable pub save :
      Contention F → UtteranceTable F → Utterance F → UtteranceTable F × Result (Utterance F)
  unfolding try_save
  save others table u = try_save others 3 table u
