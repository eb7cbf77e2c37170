-- ===== src/Jobs/Table/Preference.antt =====
-- Which jobs a claim takes: those that can be claimed, the waiting before the begun and the older
-- before the younger, up to the limit.
use Prim.Native.Nat.{max}
use meeting_overlay_assistan.Base.{
  ◌≤◌, String, ◌≡◌, refl, sym, subst, ap, ◌∙◌, true, false, not, ◌&&◌, none, some, List, [], ◌∷◌,
  map, string_eq, option_eq, nat_eq, arith, Option-cases, ◌⊎◌, inl, inr,
}
use meeting_overlay_assistan.Base.Lists.{All, length}
use meeting_overlay_assistan.Base.Rows.{In}
use meeting_overlay_assistan.Base.Distinct.{IsDistinct}
use meeting_overlay_assistan.Base.Outcome.{ok}
use meeting_overlay_assistan.Jobs.Lifecycle.{status_text_eq, job_status_eq}
use meeting_overlay_assistan.Jobs.Model.{Job}
use meeting_overlay_assistan.Jobs.Table.{
  Table, get_by_id, select_claims, ClaimRequest, is_available, claim_available,
}
use meeting_overlay_assistan.Jobs.Table.Rows.{ids, id_of_get_by_id}
use meeting_overlay_assistan.Jobs.Table.Writes.{update_all, leased, IsAvailable}
use meeting_overlay_assistan.Jobs.Table.Order.{
  Precedes, In-selected, length-take-le, In-get_by_id, get_by_id-In,
}
use meeting_overlay_assistan.Jobs.Table.Claimable.{
  IsClaimable, IsSpent, given_up, IsClaimable-IsAvailable, IsAvailable-IsClaimable,
  available-exhausted, exhaust_row-cases,
}
use meeting_overlay_assistan.Jobs.Table.Claims.{
  IsClaim, get_by_id-All, fresh, chosen, chosen_lem, chosen-IsSelection, get_by_id-fresh,
  get_by_id-claimed, chosen_in_table, claim_available_lem, claim_available-eq_ok,
}

module _ {P : Type 0} where
  length-map : (f : Job P → Job P) (xs : List (Job P)) → length (map f xs) ≡ length xs
  length-map f [] = refl
  length-map f (x ∷ xs) = omega (arith, length-map f xs)

  -- The jobs of the answer could be claimed, are locked by no other transaction, are leased and stored,
  -- and are no more than the limit. A job that is passed over although it could be claimed comes after
  -- them all, and they use the limit up. The other jobs are given up if they are spent.
  pub record IsPreferred (q : ClaimRequest) (table after : Table P) (claimed : List (Job P))
      : Type 0 where
    pub ids_kept : ids after ≡ ids table
    pub claimed_once : IsDistinct (ids claimed)
    pub bounded : length claimed ≤ max q.limit 1
    pub claimable :
        (id : String) (job : Job P)
        → get_by_id claimed id ≡ some job
        → (get_by_id after id ≡ some job)
          × (row : Job P) × (get_by_id table id ≡ some row)
          × IsClaimable q row
          × (q.locked id ≡ false)
          × (job ≡ leased q row)
    pub unclaimed :
        (id : String) (row : Job P)
        → get_by_id table id ≡ some row
        → get_by_id claimed id ≡ none
        → (IsSpent q row × (get_by_id after id ≡ some (given_up q row)))
          ⊎ ((IsSpent q row → ⊥) × (get_by_id after id ≡ some row))
    pub passed_over :
        (id : String) (row : Job P)
        → get_by_id table id ≡ some row
        → IsClaimable q row
        → q.locked id ≡ false
        → get_by_id claimed id ≡ none
        → (length claimed ≡ max q.limit 1)
          × ((other : String) (job first : Job P)
              → get_by_id claimed other ≡ some job
              → get_by_id table other ≡ some first
              → Precedes first row)

  module _ (q : ClaimRequest) (table : Table P) (distinct : IsDistinct (ids table)) where
    taken : List (Job P)
    taken = chosen q table distinct

    chosen_row :
        (id : String) (job : Job P)
        → get_by_id (map (leased q) taken) id ≡ some job
        → (row : Job P) × (get_by_id taken id ≡ some row) × (job ≡ leased q row)
    unfolding taken
    chosen_row id job e = elim (Option-cases (get_by_id taken id)) [
      | inl missing ↦ absurd (ground (arith, get_by_id-claimed q table distinct id))
      | inr (row, present) ↦ (row, present, ground (arith, get_by_id-claimed q table distinct id))
    ]

    row_of_claimed :
        (id : String) (job : Job P)
        → get_by_id (map (leased q) taken) id ≡ some job
        → (row : Job P) × (get_by_id table id ≡ some row)
          × IsClaimable q row
          × (q.locked id ≡ false)
          × (job ≡ leased q row)
    unfolding taken
    row_of_claimed id job e =
        let (row, present, same) = chosen_row id job e in
        let selection = chosen-IsSelection q table distinct in
        (
          row,
          chosen_in_table q table distinct id row present,
          IsAvailable-IsClaimable q row
              (get_by_id-All (IsAvailable q) taken id row selection.available present),
          subst (λ i. q.locked i ≡ false) (id_of_get_by_id taken id row present)
              (get_by_id-All (λ row. q.locked row.id ≡ false) taken id row selection.unlocked
                present),
          same,
        )

    left_out :
        (id : String) (row : Job P)
        → get_by_id table id ≡ some row
        → IsClaimable q row
        → q.locked id ≡ false
        → get_by_id taken id ≡ none
        → (length taken ≡ max q.limit 1) × All (λ b. Precedes b row) taken
    unfolding taken select_claims
    left_out id row found claimable free missing =
        let available = IsClaimable-IsAvailable q row claimable in
        let there : In row (fresh q table distinct) = In-get_by_id (fresh q table distinct) id row (
          get_by_id-fresh q table distinct id
          ∙ rw found (ap some (available-exhausted q row available))) in
        let own = id_of_get_by_id table id row found in
        let absent : get_by_id taken row.id ≡ none = rw own missing in
        let passes : (is_available q.claimed_at q.max_attempts row && not (q.locked row.id))
            ≡ true =
          let unlocked : q.locked row.id ≡ false = subst (λ i. q.locked i ≡ false) (sym own) free in
          ground (arith, available, unlocked) in
        elim (In-selected q.id_before
          (λ row. is_available q.claimed_at q.max_attempts row && not (q.locked row.id))
          (max q.limit 1) row (fresh q table distinct) there passes) [
            | inl within ↦ absurd (
                get_by_id-In taken row absent
                  (subst (In row) (sym (chosen_lem q table distinct)) within))
            | inr over ↦
                subst (λ rows. (length rows ≡ max q.limit 1) × All (λ b. Precedes b row) rows)
                  (sym (chosen_lem q table distinct)) over
          ]

    taken-IsPreferred :
        (after : Table P)
        → IsClaim q table after (map (leased q) taken)
        → IsPreferred q table after (map (leased q) taken)
    unfolding taken select_claims
    taken-IsPreferred after c = record {
      ids_kept = c.ids_kept;
      claimed_once = c.claimed_once;
      unclaimed = λ id row found other. elim (exhaust_row-cases q row) [
        | inl (spent, gone) ↦ inl (spent, ground (arith, c.other_jobs id other, found, gone))
        | inr (live, same) ↦ inr (live, ground (arith, c.other_jobs id other, found, same))
      ];
      bounded = rw (length-map (leased q) taken) (
          subst (λ rows. length rows ≤ max q.limit 1) (sym (chosen_lem q table distinct))
            (length-take-le (max q.limit 1) _));
      claimable = λ id job e.
          let (old, was, available, lease, stored) = c.claimed_jobs id job e in
          let (row, found, claimable, free, same) = row_of_claimed id job e in
          (stored, row, found, claimable, free, same);
      passed_over = λ id row found claimable free unclaimed.
          let missing : get_by_id taken id ≡ none = elim (Option-cases (get_by_id taken id)) [
            | inl missing ↦ missing
            | inr (other, present) ↦ absurd (ground (arith, get_by_id-claimed q table distinct id))
          ] in
          let out = left_out id row found claimable free missing in
          (
            length-map (leased q) taken ∙ out.0,
            λ other job first present at.
                let (held, picked, same) = chosen_row other job present in
                let old = chosen_in_table q table distinct other held picked in
                let equal : held ≡ first = ground (arith, old, at) in
                subst (λ b. Precedes b row) equal
                  (get_by_id-All (λ b. Precedes b row) taken other held out.1 picked),
          );
    }

-- Claiming from a table with distinct ids succeeds. It leases jobs to the claimer, each once and with
-- one attempt more, that wait or whose lease ran out before their last attempt and that no other
-- transaction locks, no more than the limit, which is at least 1; such a job is passed over only if
-- the limit is used up by jobs that do not come after it, the waiting before the begun and then the
-- older before the younger. Of the other jobs it marks as failed those whose last attempt is lost, and
-- leaves the rest as they were.
pub claim_available-IsPreferred :
    {P : Type 0} (q : ClaimRequest) (table : Table P)
    → IsDistinct (ids table)
    → (after : Table P) × (claimed : List (Job P)) × (claim_available q table ≡ ok (after, claimed))
      × IsPreferred q table after claimed
unfolding taken
claim_available-IsPreferred q table d =
    let claimed = map (leased q) (chosen q table d) in
    let after = update_all (fresh q table d) claimed in
    let answer = claim_available_lem q table d in
    (
      after,
      claimed,
      answer,
      taken-IsPreferred q table d after (claim_available-eq_ok q table after claimed d answer),
    )
