-- ===== src/Insight/Searches.antt =====
-- What the two searches for an event to merge into find, and what a merge keeps of its place.
use meeting_overlay_assistan.Base.{
  String, Bool, true, false, Option, none, some, List, [], ◌∷◌, string_eq, option_eq, or_text, ◌≡◌,
  refl, sym, ap, ◌∙◌, ◌≢◌, inl, inr, arith, Bool-cases, Option-cases,
}
use meeting_overlay_assistan.Base.Rows.{
  In, keep_if, sort_by, head, In-keep_if, In-kept, In-sort_by, In-sorted, In-head,
}
use meeting_overlay_assistan.Base.Text.{is_empty}
use meeting_overlay_assistan.Insight.States.{EventType, event_type_eq, event_state_eq}
use meeting_overlay_assistan.Insight.Events.{MeetingEvent, Platform, merge_with}
use meeting_overlay_assistan.Insight.Repository.{
  EventTable, update, of_source, list_by_source_utterance, is_merge_row, created_before,
  updated_after, find_merge_target,
}
use meeting_overlay_assistan.Insight.Service.{
  last_of_type, find_same_source_event, merge_target, merge_same_source_event, merge_found,
  save_or_merge,
}
use meeting_overlay_assistan.Insight.Slots.{
  SameSlot, IsSingle, IsNew, save-IsSingle, update-IsSingle, moved-SameSlot,
}

last_of_type-In :
    (t : EventType) (a : MeetingEvent) (es : List MeetingEvent)
    → last_of_type t es ≡ some a
    → In a es × (a.event_type ≡ t)
unfolding last_of_type
last_of_type-In t a [] h = absurd (ground (arith, h))
last_of_type-In t a (e ∷ es) h = ground (arith, last_of_type-In t a es)

last_of_type-none :
    (t : EventType) (a : MeetingEvent) (es : List MeetingEvent)
    → last_of_type t es ≡ none
    → In a es
    → a.event_type ≢ t
unfolding last_of_type
last_of_type-none t a [] h there = absurd there
last_of_type-none t a (e ∷ es) h there = ground (arith, last_of_type-none t a es)

of_source-SameSlot :
    (e c : MeetingEvent) (source : String)
    → e.event_type ≡ c.event_type
    → c.source_utterance_id ≡ some source
    → is_empty source ≡ false
    → of_source c.session_id source c.insight_scope e ≡ true
    → SameSlot e c
of_source-SameSlot e c source typed given full matched = record {
  sessions = ground arith;
  types = typed;
  scopes = ground arith;
  source = source;
  source_given = full;
  left_source = ground arith;
  right_source = given;
}

SameSlot-of_source :
    (a c : MeetingEvent) (s : SameSlot a c)
    → of_source c.session_id s.source c.insight_scope a ≡ true
SameSlot-of_source a c s =
    let sessions = s.sessions in let scopes = s.scopes in let left = s.left_source in ground arith

-- What a search for the candidate's own slot finds.
find_same_source_event-found :
    (p : Platform) (table : EventTable) (c e : MeetingEvent)
    → find_same_source_event p table c ≡ some e
    → In e table × SameSlot e c
unfolding find_same_source_event list_by_source_utterance
find_same_source_event-found p table c e h = elim (Option-cases c.source_utterance_id) [
  | inl missing ↦ absurd (ground arith)
  | inr (source, given) ↦ elim (Bool-cases (is_empty source)) [
    | inl blank ↦ absurd (ground arith)
    | inr full ↦
        let rows = list_by_source_utterance p table c.session_id source c.insight_scope in
        let found : last_of_type c.event_type rows ≡ some e =
          (rw (given, full, find_same_source_event) at h) in
        let (listed, typed) = last_of_type-In c.event_type e rows found in
        let sorted = keep_if (of_source c.session_id source c.insight_scope) table in
        let (there, matched) =
          In-keep_if (of_source c.session_id source c.insight_scope) e table
            (In-sort_by (created_before p) e sorted listed) in
        (there, of_source-SameSlot e c source typed given full matched)
  ]
]

find_same_source_event-none :
    (p : Platform) (table : EventTable) (c a : MeetingEvent)
    → find_same_source_event p table c ≡ none
    → In a table
    → ¬ (SameSlot a c)
unfolding find_same_source_event list_by_source_utterance
find_same_source_event-none p table c a h there s =
    let test = of_source c.session_id s.source c.insight_scope in
    let given : test a ≡ true = SameSlot-of_source a c s in
    let rows = list_by_source_utterance p table c.session_id s.source c.insight_scope in
    let unfound : last_of_type c.event_type rows ≡ none =
      (rw (s.right_source, s.source_given, find_same_source_event) at h) in
    last_of_type-none c.event_type a rows unfound
      (In-sorted (created_before p) a (keep_if test table) (In-kept test a table there given))
      s.types

merge_target-found :
    (p : Platform) (table : EventTable) (c e : MeetingEvent)
    → merge_target p table c ≡ some e
    → In e table
      × ((e.session_id ≡ c.session_id)
          × ((e.event_type ≡ c.event_type) × (e.insight_scope ≡ c.insight_scope)))
unfolding merge_target find_merge_target
merge_target-found p table c e h =
    let found : find_merge_target p table c ≡ some e = ground arith in
    let rows = keep_if (is_merge_row p c) table in
    let first : head (sort_by (updated_after p) rows) ≡ some e = ground arith in
    let (there, matched) =
      In-keep_if (is_merge_row p c) e table
        (In-sort_by (updated_after p) e rows (In-head e (sort_by (updated_after p) rows) first)) in
    (there, ground arith)

-- The candidate names an utterance.
abbrev names_source : Option String → Bool
names_source none = false
names_source (some String.[]) = false
names_source (some (String.◌∷◌ c s)) = true

or_text-named : (a b : Option String) → names_source a ≡ true → or_text a b ≡ a
or_text-named none b h = absurd (ground (arith, h))
or_text-named (some String.[]) b h = absurd (ground (arith, h))
or_text-named (some (String.◌∷◌ c s)) b h = refl

or_text-unnamed : (a b : Option String) → names_source a ≡ false → or_text a b ≡ b
or_text-unnamed none b h = refl
or_text-unnamed (some String.[]) b h = refl
or_text-unnamed (some (String.◌∷◌ c s)) b h = absurd (ground (arith, h))

-- A merge keeps the id, the session, the type and the scope; the utterance is the candidate's,
-- when it has one.
pub record KeepsPlace (old c new : MeetingEvent) : Type 0 where
  pub ids : new.id ≡ old.id
  pub sessions : new.session_id ≡ old.session_id
  pub types : new.event_type ≡ old.event_type
  pub scopes : new.insight_scope ≡ old.insight_scope
  pub sources : new.source_utterance_id ≡ or_text c.source_utterance_id old.source_utterance_id

merge_with-KeepsPlace : (old c : MeetingEvent) → KeepsPlace old c (merge_with old c)
unfolding merge_with
merge_with-KeepsPlace old c = record {
  ids = ground arith;
  sessions = ground arith;
  types = ground arith;
  scopes = ground arith;
  sources = ground arith;
}

merge_same_source_event-KeepsPlace :
    (old c : MeetingEvent) → KeepsPlace old c (merge_same_source_event old c)
unfolding merge_same_source_event
merge_same_source_event-KeepsPlace old c = record {
  ids = (merge_with-KeepsPlace old c).ids;
  sessions = (merge_with-KeepsPlace old c).sessions;
  types = (merge_with-KeepsPlace old c).types;
  scopes = (merge_with-KeepsPlace old c).scopes;
  sources = (merge_with-KeepsPlace old c).sources;
}

-- The merged event stays in its slot or moves to the candidate's, which no other row occupies.
merged-IsSingle :
    (table : EventTable) (old c new : MeetingEvent)
    → IsSingle table
    → In old table
    → KeepsPlace old c new
    → old.session_id ≡ c.session_id
    → old.event_type ≡ c.event_type
    → old.insight_scope ≡ c.insight_scope
    → ((a : MeetingEvent) → In a table → SameSlot a c → a ≡ old)
    → IsSingle (update table new)
merged-IsSingle table old c new h there kept ss ts cs only =
    update-IsSingle table old new h there kept.ids kept.sessions (λ a ta s.
      elim (Bool-cases (names_source c.source_utterance_id)) [
        | inl named ↦
            let source =
              kept.sources ∙ or_text-named c.source_utterance_id old.source_utterance_id named in
            let slot =
              moved-SameSlot a new c s (kept.sessions ∙ ss) (kept.types ∙ ts) (kept.scopes ∙ cs)
                source in
            ap (λ (e : MeetingEvent). e.id) (only a ta slot) ∙ sym kept.ids
        | inr unnamed ↦
            let source =
              kept.sources
              ∙ or_text-unnamed c.source_utterance_id old.source_utterance_id unnamed in
            let slot = moved-SameSlot a new old s kept.sessions kept.types kept.scopes source in
            ap (λ (e : MeetingEvent). e.id) (h.slots a old ta there slot) ∙ sym kept.ids
      ])

merge_found-IsSingle :
    (p : Platform) (table : EventTable) (c : MeetingEvent)
    → IsSingle table
    → IsNew c.id table
    → find_same_source_event p table c ≡ none
    → IsSingle (merge_found table c (merge_target p table c)).0
merge_found-IsSingle p table c h fresh unfound = elim (Option-cases (merge_target p table c)) [
  | inl nothing ↦
      rw nothing
        (save-IsSingle table c h fresh (λ a ta. find_same_source_event-none p table c a unfound ta))
  | inr (old, found) ↦
      let (there, place) = merge_target-found p table c old found in
      rw found (
        merged-IsSingle table old c (merge_with old c) h there (merge_with-KeepsPlace old c) place.0
          place.1.0 place.1.1
          (λ a ta s. absurd (find_same_source_event-none p table c a unfound ta s)))
]

through : (a c old : MeetingEvent) → SameSlot a c → SameSlot old c → SameSlot a old
through a c old s t =
    moved-SameSlot a c old s (sym t.sessions) (sym t.types) (sym t.scopes)
      (t.right_source ∙ sym t.left_source)

-- Storing a candidate of a new id keeps the id a key and every slot single.
pub save_or_merge-IsSingle :
    (p : Platform) (table : EventTable) (c : MeetingEvent)
    → IsSingle table
    → IsNew c.id table
    → IsSingle (save_or_merge p table c).0
unfolding save_or_merge
save_or_merge-IsSingle p table c h fresh = elim (Option-cases (find_same_source_event p table c)) [
  | inl unfound ↦ rw unfound (merge_found-IsSingle p table c h fresh unfound)
  | inr (old, found) ↦
      let (there, slot) = find_same_source_event-found p table c old found in
      rw found (
        merged-IsSingle table old c (merge_same_source_event old c) h there
          (merge_same_source_event-KeepsPlace old c) slot.sessions slot.types slot.scopes
          (λ a ta s. h.slots a old ta there (through a c old s slot)))
]
