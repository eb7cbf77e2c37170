-- ===== src/Jobs/Table/Claims.antt =====
-- What a claim does to the table.
use meeting_overlay_assistan.Base.{
  String, ◌≡◌, refl, sym, subst, ◌∙◌, none, some, List, [], ◌∷◌, map, string_eq, option_eq, arith,
  Option-cases, inl, inr,
}
use mathlib.Core.Option
use meeting_overlay_assistan.Base.Lists.{All}
use meeting_overlay_assistan.Base.Distinct.{IsDistinct}
use meeting_overlay_assistan.Base.Outcome.{ok, ok-injective}
use meeting_overlay_assistan.Jobs.Lifecycle.{status_text_eq}
use meeting_overlay_assistan.Jobs.Model.{Job}
use meeting_overlay_assistan.Jobs.Table.{
  Table, get_by_id, exhaust_row, exhaust_stale, select_claims, ClaimRequest, is_available,
  claim_available,
}
use meeting_overlay_assistan.Jobs.Table.Rows.{ids, IsRowOf, get_by_id-map, ids-map, id_of_get_by_id}
use meeting_overlay_assistan.Jobs.Table.Writes.{
  leased, exhausted, IsAvailable, update_all, claim_rows_lem, get_by_id-update_all, id-exhausted,
  ids-update_all,
}
use meeting_overlay_assistan.Jobs.Table.Selection.{IsSelection, select_claims-IsSelection}

module _ {P : Type 0} where
  head_found :
      (r : Job P) (id : String) (row : Job P) (rs : List (Job P))
      → r.id ≡ id
      → get_by_id (r ∷ rs) id ≡ some row
      → r ≡ row
  unfolding get_by_id
  head_found r id row rs p e = ground arith

  pub get_by_id-All :
      (Q : Job P → Type 0) (rows : List (Job P)) (id : String) (row : Job P)
      → All Q rows
      → get_by_id rows id ≡ some row
      → Q row
  unfolding get_by_id
  get_by_id-All Q [] id row h e = absurd (ground arith)
  get_by_id-All Q (r ∷ rs) id row h e = elim (string_eq.dec r.id id) [
    | yes p ↦ subst Q (head_found r id row rs p e) h.0
    | no p ↦ get_by_id-All Q rs id row h.1 (ground arith)
  ]

  exhausted-available :
      (q : ClaimRequest) (row : Job P) → IsAvailable q (exhausted q row) → exhausted q row ≡ row
  unfolding exhaust_row is_available
  exhausted-available q row h = ground arith

  -- The outcome of a claim, seen by id: a job that was claimed was available and is now leased to
  -- the claimer; any other job is as it was, but for the failure of an exhausted one.
  pub record IsClaim (q : ClaimRequest) (table after : Table P) (claimed : List (Job P))
      : Type 0 where
    pub ids_kept : ids after ≡ ids table
    pub claimed_once : IsDistinct (ids claimed)
    pub claimed_jobs :
        (id : String) (job : Job P)
        → get_by_id claimed id ≡ some job
        → (row : Job P) × (get_by_id table id ≡ some row)
          × IsAvailable q row
          × (job ≡ leased q row)
          × (get_by_id after id ≡ some job)
    pub other_jobs :
        (id : String)
        → get_by_id claimed id ≡ none
        → get_by_id after id ≡ Option.map (exhausted q) (get_by_id table id)

  module _ (q : ClaimRequest) (table : Table P) (distinct : IsDistinct (ids table)) where
    pub fresh : Table P
    fresh = exhaust_stale q table

    pub chosen : List (Job P)
    chosen = select_claims q fresh

    pub chosen_lem : chosen ≡ select_claims q fresh
    unfolding chosen
    chosen_lem = refl

    ids-fresh : ids fresh ≡ ids table
    unfolding fresh
    ids-fresh = ids-map (exhausted q) (id-exhausted q) table

    pub chosen-IsSelection : IsSelection q fresh chosen
    unfolding chosen
    chosen-IsSelection = select_claims-IsSelection q fresh (rw ids-fresh distinct)

    pub get_by_id-fresh :
        (id : String) → get_by_id fresh id ≡ Option.map (exhausted q) (get_by_id table id)
    unfolding fresh
    get_by_id-fresh id = get_by_id-map (exhausted q) (id-exhausted q) table id

    pub get_by_id-claimed :
        (id : String)
        → get_by_id (map (leased q) chosen) id ≡ Option.map (leased q) (get_by_id chosen id)
    get_by_id-claimed id = get_by_id-map (leased q) (λ row. refl) chosen id

    get_by_id-after :
        (id : String)
        → get_by_id (update_all fresh (map (leased q) chosen)) id ≡ elim (get_by_id chosen id) [
          | none ↦ get_by_id fresh id
          | some row ↦ some (leased q row)
        ]
    get_by_id-after id =
        get_by_id-update_all q fresh chosen id chosen-IsSelection.distinct
          chosen-IsSelection.rows_of

    chosen-IsAvailable :
        (id : String) (row : Job P) → get_by_id chosen id ≡ some row → IsAvailable q row
    chosen-IsAvailable id row e =
        get_by_id-All (IsAvailable q) chosen id row chosen-IsSelection.available e

    chosen_in_fresh :
        (id : String) (row : Job P) → get_by_id chosen id ≡ some row → get_by_id fresh id ≡ some row
    chosen_in_fresh id row e =
        subst (λ i. get_by_id fresh i ≡ some row) (id_of_get_by_id chosen id row e)
          (get_by_id-All (IsRowOf fresh) chosen id row chosen-IsSelection.rows_of e)

    pub chosen_in_table :
        (id : String) (row : Job P) → get_by_id chosen id ≡ some row → get_by_id table id ≡ some row
    chosen_in_table id row e = elim (Option-cases (get_by_id table id)) [
      | inl missing ↦ cc (missing, get_by_id-fresh id, chosen_in_fresh id row e)
      | inr (old, present) ↦ ground (
        arith,
        present,
        get_by_id-fresh id,
        chosen_in_fresh id row e,
        chosen-IsAvailable id row e,
        exhausted-available q old,
      )
    ]

    -- A claim over rows with distinct ids succeeds.
    pub claim_available_lem :
        claim_available q table
        ≡ ok (update_all fresh (map (leased q) chosen), map (leased q) chosen)
    unfolding claim_available fresh chosen
    claim_available_lem = claim_rows_lem q fresh chosen chosen-IsSelection.available

    claimed_job :
        (id : String) (job : Job P)
        → get_by_id (map (leased q) chosen) id ≡ some job
        → (row : Job P) × (get_by_id table id ≡ some row)
          × IsAvailable q row
          × (job ≡ leased q row)
          × (get_by_id (update_all fresh (map (leased q) chosen)) id ≡ some job)
    claimed_job id job e = elim (Option-cases (get_by_id chosen id)) [
      | inl missing ↦ absurd (ground (arith, get_by_id-claimed id))
      | inr (row, present) ↦ (
        row,
        chosen_in_table id row present,
        chosen-IsAvailable id row present,
        ground (arith, get_by_id-claimed id),
        ground (arith, get_by_id-claimed id, get_by_id-after id),
      )
    ]

    other_job :
        (id : String)
        → get_by_id (map (leased q) chosen) id ≡ none
        → get_by_id (update_all fresh (map (leased q) chosen)) id
          ≡ Option.map (exhausted q) (get_by_id table id)
    other_job id e = elim (Option-cases (get_by_id chosen id)) [
      | inl missing ↦ ground (arith, get_by_id-after id, get_by_id-fresh id)
      | inr (row, present) ↦ absurd (ground (arith, get_by_id-claimed id))
    ]

pub claim_available-IsClaim :
    {P : Type 0} (q : ClaimRequest) (table : Table P)
    → IsDistinct (ids table)
    → (after : Table P) × (claimed : List (Job P)) × (claim_available q table ≡ ok (after, claimed))
      × IsClaim q table after claimed
claim_available-IsClaim q table d = (
  update_all (fresh q table d) (map (leased q) (chosen q table d)),
  map (leased q) (chosen q table d),
  claim_available_lem q table d,
  record {
    ids_kept =
        ids-update_all (fresh q table d) (map (leased q) (chosen q table d)) ∙ ids-fresh q table d;
    claimed_once =
        rw (ids-map (leased q) (λ row. refl) (chosen q table d))
          ((chosen-IsSelection q table d).distinct);
    claimed_jobs = claimed_job q table d;
    other_jobs = other_job q table d;
  },
)

pub claim_available-eq_ok :
    {P : Type 0} (q : ClaimRequest) (table after : Table P) (claimed : List (Job P))
    → IsDistinct (ids table)
    → claim_available q table ≡ ok (after, claimed)
    → IsClaim q table after claimed
claim_available-eq_ok {P} q table after claimed d h =
    let (a, c, e, i) = claim_available-IsClaim q table d in
    let same : (a, c) ≡ (after, claimed) = ok-injective (a, c) (after, claimed) (sym e ∙ h) in
    subst (λ (r : Table P × List (Job P)). IsClaim q table r.0 r.1) same i
