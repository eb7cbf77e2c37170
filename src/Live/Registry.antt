-- ===== src/Live/Registry.antt =====
-- runtime/contexts/live_stream_registry.py. A context is a shared object that every holder finds by
-- its id: to change it is to put it back. What a holder does to a context after its removal is seen
-- by nobody and left out. `reset_stream` calls the pipeline, which is not part of the state.
use Prim.Native.String.{◌++◌ as ◌<>◌}
use meeting_overlay_assistan.Base.{
  ℕ, String, Bool, Option, List, [], ◌∷◌, ◌==◌, if◌then◌else◌, string_eq, leb,
}
use meeting_overlay_assistan.Base.Lists.{length}
use meeting_overlay_assistan.Base.Dict.{Dict, lookup, insert, erase}
use meeting_overlay_assistan.Base.Outcome.{Result, ok, err, capacity_error}
use meeting_overlay_assistan.Live.Context.{LiveStreamContext, new_context, is_some}

pub record LiveStreamRegistry (A : Type 0) : Type 0 where
  pub max_running_streams : ℕ
  pub contexts : Dict String (LiveStreamContext A)

module _ {A : Type 0} where
  abbrev pub get_context : LiveStreamRegistry A → String → Option (LiveStreamContext A)
  get_context registry id = lookup id registry.contexts

  abbrev pub put_context :
      LiveStreamRegistry A → String → LiveStreamContext A → LiveStreamRegistry A
  put_context registry id c = record registry { contexts = insert id c registry.contexts }

  abbrev pub is_registered : LiveStreamRegistry A → String → Bool
  is_registered registry id = is_some (get_context registry id)

  -- The last text is the random part of the id, which `uuid4` draws.
  unfoldable pub create_context :
      LiveStreamRegistry A
      → String
      → Option String
      → String
      → Bool
      → ℕ
      → String
      → Result (LiveStreamContext A × LiveStreamRegistry A)
  unfolding new_context
  create_context registry session_id input_source stream_kind supports_preview max_pending_chunks
        hex =
      let context_id = stream_kind <> (":" <> (session_id <> (":" <> hex))) in
      let context =
        new_context context_id session_id input_source stream_kind supports_preview
          max_pending_chunks in
      if leb registry.max_running_streams (length registry.contexts)
      then err capacity_error
      else ok (context, put_context registry context_id context)

  abbrev pub of_session : String → Dict String (LiveStreamContext A) → List (LiveStreamContext A)
  of_session session_id [] = []
  of_session session_id ((id, c) ∷ rest) =
      if c.session_id == session_id
      then c ∷ of_session session_id rest
      else of_session session_id rest

  abbrev pub list_contexts_by_session : LiveStreamRegistry A → String → List (LiveStreamContext A)
  list_contexts_by_session registry session_id = of_session session_id registry.contexts

  abbrev pub remove_context : LiveStreamRegistry A → String → LiveStreamRegistry A
  remove_context registry id = record registry { contexts = erase id registry.contexts }
