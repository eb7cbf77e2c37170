-- ===== src/Jobs/Table/Rows.antt =====
-- Looking rows up by id, before and after the queries.
use meeting_overlay_assistan.Base.{
  String, ◌≡◌, refl, none, some, false, List, [], ◌∷◌, map, ◌==◌, if◌then◌else◌, string_eq,
  option_eq, contains, arith,
}
use mathlib.Core.Option
use meeting_overlay_assistan.Base.Lists.{All}
use meeting_overlay_assistan.Base.Distinct.{IsDistinct}
use meeting_overlay_assistan.Jobs.Lifecycle.{status_text_eq}
use meeting_overlay_assistan.Jobs.Model.{Job}
use meeting_overlay_assistan.Jobs.Table.{Table, get_by_id, write_row, update}

module _ {P : Type 0} where
  abbrev pub ids : Table P → List String
  ids = map (λ row. row.id)

  -- A row that the table holds at its id.
  abbrev pub IsRowOf : Table P → Job P → Type 0
  IsRowOf table row = get_by_id table row.id ≡ some row

  -- A change of rows that keeps their ids is seen by a lookup.
  pub get_by_id-map :
      (f : Job P → Job P)
      → ((row : Job P) → (f row).id ≡ row.id)
      → (table : Table P) (id : String)
      → get_by_id (map f table) id ≡ Option.map f (get_by_id table id)
  unfolding get_by_id
  get_by_id-map f keep [] id = refl
  get_by_id-map f keep (row ∷ rest) id = ground (arith, keep row, get_by_id-map f keep rest id)

  pub ids-map :
      (f : Job P → Job P)
      → ((row : Job P) → (f row).id ≡ row.id)
      → (table : Table P) → ids (map f table) ≡ ids table
  ids-map f keep [] = refl
  ids-map f keep (row ∷ rest) = cc (keep row, ids-map f keep rest)

  pub id_of_get_by_id :
      (table : Table P) (id : String) (row : Job P) → get_by_id table id ≡ some row → row.id ≡ id
  unfolding get_by_id
  id_of_get_by_id [] id row h = cc
  id_of_get_by_id (r ∷ rest) id row h = ground (arith, id_of_get_by_id rest id row)

  pub get_by_id-absent :
      (table : Table P) (id : String) → contains (ids table) id ≡ false → get_by_id table id ≡ none
  unfolding get_by_id
  get_by_id-absent [] id h = refl
  get_by_id-absent (row ∷ rest) id h = ground (arith, get_by_id-absent rest id)

  -- An UPDATE of one job changes the row of that job and no other.
  pub get_by_id-update :
      (table : Table P) (job : Job P) (id : String)
      → get_by_id (update table job) id ≡ (
          if id == job.id
          then Option.map (write_row job) (get_by_id table id)
          else get_by_id table id)
  unfolding get_by_id update
  get_by_id-update [] job id = ground arith
  get_by_id-update (row ∷ rest) job id = ground (arith, get_by_id-update rest job id)

  rows_of_tail :
      (row : Job P) (rest xs : Table P)
      → contains (ids xs) row.id ≡ false
      → All (IsRowOf rest) xs
      → All (IsRowOf (row ∷ rest)) xs
  unfolding get_by_id
  rows_of_tail row rest [] c h = tt
  rows_of_tail row rest (x ∷ xs) c h = (ground arith, rows_of_tail row rest xs (ground arith) h.1)

  -- Where ids are distinct, each row of the table is the one found at its id.
  pub All-rows : (table : Table P) → IsDistinct (ids table) → All (IsRowOf table) table
  unfolding get_by_id
  All-rows [] d = tt
  All-rows (row ∷ rest) d = (ground arith, rows_of_tail row rest rest d.0 (All-rows rest d.1))
