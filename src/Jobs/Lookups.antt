-- ===== src/Jobs/Lookups.antt =====
-- The queries of the job repositories that only read: server/app/infrastructure/persistence/postgresql/
-- repositories/job_sql_templates.py, build_list_pending_query and build_get_latest_by_session_query.
use Prim.Native.Nat.{max}
use meeting_overlay_assistan.Base.{
  ℕ, String, Bool, ◌&&◌, ◌||◌, Option, List, ◌==◌, string_eq, ltb, leb,
}
use meeting_overlay_assistan.Base.Lists.{take}
use meeting_overlay_assistan.Base.Rows.{keep_if, sort_by, head}
use meeting_overlay_assistan.Jobs.Lifecycle.{known, pending, status_text_eq}
use meeting_overlay_assistan.Jobs.Model.{Job}
use meeting_overlay_assistan.Jobs.Table.{Table}

module _ {P : Type 0} (id_before : String → String → Bool) where
  -- ORDER BY created_at ASC, id ASC
  abbrev pub created_first : Job P → Job P → Bool
  created_first a b =
      ltb a.created_at b.created_at || (leb a.created_at b.created_at && id_before a.id b.id)

  -- ORDER BY created_at DESC, id DESC
  abbrev pub created_last : Job P → Job P → Bool
  created_last a b = created_first b a

  unfoldable pub list_pending : Table P → ℕ → List (Job P)
  list_pending table limit =
      take (max limit 1)
        (sort_by created_first (keep_if (λ (row : Job P). row.status == known pending) table))

  unfoldable pub get_latest_by_session : Table P → String → Option (Job P)
  get_latest_by_session table session_id =
      head (sort_by created_last (keep_if (λ (row : Job P). row.session_id == session_id) table))
