-- ===== src/Insight/Singles.antt =====
-- Storing candidates of new ids, one after another: the slots of the table that they leave.
use meeting_overlay_assistan.Base.{
  String, Option, none, some, List, [], ◌∷◌, string_eq, option_eq, ◌≡◌, sym, ap, ◌∙◌, ◌≢◌, inl, inr,
  arith,
}
use meeting_overlay_assistan.Base.Rows.{In-append, In-map}
use meeting_overlay_assistan.Insight.States.{event_type_eq, event_state_eq}
use meeting_overlay_assistan.Insight.Events.{MeetingEvent, Platform, merge_with}
use meeting_overlay_assistan.Insight.Repository.{EventTable, save, update, write_row}
use meeting_overlay_assistan.Insight.Service.{
  find_same_source_event, merge_target, merge_same_source_event, merge_found, same_source_found,
  save_or_merge, save_all,
}
use meeting_overlay_assistan.Insight.Slots.{IsSingle, IsNew}
use meeting_overlay_assistan.Insight.Searches.{save_or_merge-IsSingle}

-- No candidate has the id.
abbrev pub IsOther : String → List MeetingEvent → Type 0
IsOther i [] = Unit
IsOther i (c ∷ cs) = (c.id ≢ i) × IsOther i cs

-- The candidates' ids differ from each other and from those of the table.
abbrev pub AreNew : List MeetingEvent → EventTable → Type 0
AreNew [] table = Unit
AreNew (c ∷ cs) table = IsNew c.id table × (IsOther c.id cs × AreNew cs table)

update-IsNew :
    (i : String) (table : EventTable) (e : MeetingEvent) → IsNew i table → IsNew i (update table e)
unfolding update
update-IsNew i table e new a there =
    let (row, found) = In-map (write_row e) a table there in
    let kept : (write_row e row).id ≡ row.id = ground arith in
    λ same. new row found.0 (sym kept ∙ ap (λ (r : MeetingEvent). r.id) (sym found.1) ∙ same)

save-IsNew :
    (i : String) (table : EventTable) (e : MeetingEvent)
    → IsNew i table
    → e.id ≢ i
    → IsNew i (save table e)
save-IsNew i table e new other a there = elim (In-append a e table there) [
  | inl stored ↦ new a stored
  | inr same ↦ λ (h : a.id ≡ i). other (ap (λ (r : MeetingEvent). r.id) (sym same) ∙ h)
]

merge_found-IsNew :
    (i : String) (table : EventTable) (c : MeetingEvent) (found : Option MeetingEvent)
    → IsNew i table
    → c.id ≢ i
    → IsNew i (merge_found table c found).0
merge_found-IsNew i table c none new other = save-IsNew i table c new other
merge_found-IsNew i table c (some old) new other = update-IsNew i table (merge_with old c) new

same_source_found-IsNew :
    (i : String) (p : Platform) (table : EventTable) (c : MeetingEvent)
    (found : Option MeetingEvent)
    → IsNew i table
    → c.id ≢ i
    → IsNew i (same_source_found p table c found).0
same_source_found-IsNew i p table c none new other =
    merge_found-IsNew i table c (merge_target p table c) new other
same_source_found-IsNew i p table c (some old) new other =
    update-IsNew i table (merge_same_source_event old c) new

save_or_merge-AreNew :
    (p : Platform) (table : EventTable) (c : MeetingEvent) (cs : List MeetingEvent)
    → IsOther c.id cs
    → AreNew cs table
    → AreNew cs (save_or_merge p table c).0
unfolding save_or_merge
save_or_merge-AreNew p table c [] other new = tt
save_or_merge-AreNew p table c (d ∷ ds) other new =
    let differ : c.id ≢ d.id = λ h. other.0 (sym h) in
    (
      same_source_found-IsNew d.id p table c (find_same_source_event p table c) new.0 differ,
      (new.1.0, save_or_merge-AreNew p table c ds other.1 new.1.1),
    )

-- Storing candidates of new and distinct ids, one after another, keeps the id a key and every slot
-- single.
pub save_all-IsSingle :
    (p : Platform) (table : EventTable) (cs : List MeetingEvent)
    → IsSingle table
    → AreNew cs table
    → IsSingle (save_all p table cs)
unfolding save_all
save_all-IsSingle p table [] h new = h
save_all-IsSingle p table (c ∷ cs) h new =
    save_all-IsSingle p (save_or_merge p table c).0 cs (save_or_merge-IsSingle p table c h new.0)
      (save_or_merge-AreNew p table c cs new.1.0 new.1.1)
