-- ===== src/Insight/Slots.antt =====
-- The slot that an event occupies: its session, its type, its scope and the utterance that it
-- comes from, the key by which `_find_same_source_event` looks for an event to merge into.
use meeting_overlay_assistan.Base.{
  String, false, some, ◌==◌, string_eq, option_eq, ◌≡◌, sym, ap, ◌∙◌, subst, ◌⊎◌, ◌≢◌, inl, inr,
  arith, Bool-cases,
}
use meeting_overlay_assistan.Base.Rows.{In, In-append, In-map}
use meeting_overlay_assistan.Base.Text.{is_empty}
use meeting_overlay_assistan.Insight.States.{event_type_eq, event_state_eq}
use meeting_overlay_assistan.Insight.Events.{MeetingEvent}
use meeting_overlay_assistan.Insight.Repository.{EventTable, save, update, write_row}

-- Two events occupy one slot; an event without an utterance occupies none.
pub record SameSlot (a b : MeetingEvent) : Type 0 where
  pub sessions : a.session_id ≡ b.session_id
  pub types : a.event_type ≡ b.event_type
  pub scopes : a.insight_scope ≡ b.insight_scope
  pub source : String
  pub source_given : is_empty source ≡ false
  pub left_source : a.source_utterance_id ≡ some source
  pub right_source : b.source_utterance_id ≡ some source

-- The id is a key of the table, and no two events occupy one slot.
pub record IsSingle (table : EventTable) : Type 0 where
  pub keys : (a b : MeetingEvent) → In a table → In b table → a.id ≡ b.id → a ≡ b
  pub slots : (a b : MeetingEvent) → In a table → In b table → SameSlot a b → a ≡ b

-- The id is the id of no row.
abbrev pub IsNew : String → EventTable → Type 0
IsNew i table = (a : MeetingEvent) → In a table → a.id ≢ i

swapped : (a b c : MeetingEvent) → a ≡ c → SameSlot a b → SameSlot b c
swapped a b c e s = subst (SameSlot b) e record {
  sessions = sym s.sessions;
  types = sym s.types;
  scopes = sym s.scopes;
  source = s.source;
  source_given = s.source_given;
  left_source = s.right_source;
  right_source = s.left_source;
}

pub save-IsSingle :
    (table : EventTable) (c : MeetingEvent)
    → IsSingle table
    → IsNew c.id table
    → ((a : MeetingEvent) → In a table → ¬ (SameSlot a c))
    → IsSingle (save table c)
save-IsSingle table c h fresh free = record {
  keys = λ a b ha hb e.
      ground (arith, In-append a c table ha, In-append b c table hb, h.keys a b, fresh a, fresh b);
  slots = λ a b ha hb s. elim (In-append a c table ha) [
    | inl ta ↦ elim (In-append b c table hb) [
      | inl tb ↦ h.slots a b ta tb s
      | inr eb ↦ absurd (free a ta (subst (SameSlot a) eb s))
    ]
    | inr ea ↦ elim (In-append b c table hb) [
      | inl tb ↦ absurd (free b tb (swapped a b c ea s))
      | inr eb ↦ ea ∙ sym eb
    ]
  ];
}

write_row_same :
    (new old row : MeetingEvent)
    → row.id ≡ new.id
    → row ≡ old
    → new.session_id ≡ old.session_id
    → write_row new row ≡ new
write_row_same new old row e o s =
    let opened : write_row new row ≡ record new { session_id = row.session_id } = ground arith in
    opened
    ∙ ap (λ (i : String). record new { session_id = i })
        (ap (λ (r : MeetingEvent). r.session_id) o ∙ sym s)

write_row_other : (new row : MeetingEvent) → row.id ≢ new.id → write_row new row ≡ row
write_row_other new row n = ground arith

-- A row of the table after an update is the event itself or a row of another id.
In-update :
    (table : EventTable) (old new a : MeetingEvent)
    → IsSingle table
    → In old table
    → new.id ≡ old.id
    → new.session_id ≡ old.session_id
    → In a (update table new)
    → (a ≡ new) ⊎ (In a table × (a.id ≢ new.id))
unfolding update
In-update table old new a h there i s m =
    let (row, found) = In-map (write_row new) a table m in
    elim (Bool-cases (row.id == new.id)) [
      | inl e ↦
          let same : row.id ≡ new.id = ground arith in
          inl
            (found.1 ∙ write_row_same new old row same (h.keys row old found.0 there (same ∙ i)) s)
      | inr n ↦
          let other : row.id ≢ new.id = ground arith in
          let kept = found.1 ∙ write_row_other new row other in
          inr (
            subst (λ (r : MeetingEvent). In r table) (sym kept) found.0,
            subst (λ (r : MeetingEvent). r.id ≢ new.id) (sym kept) other,
          )
    ]

pub update-IsSingle :
    (table : EventTable) (old new : MeetingEvent)
    → IsSingle table
    → In old table
    → new.id ≡ old.id
    → new.session_id ≡ old.session_id
    → ((a : MeetingEvent) → In a table → SameSlot a new → a.id ≡ new.id)
    → IsSingle (update table new)
update-IsSingle table old new h there i s free = record {
  keys = λ a b ha hb e. ground (
    arith,
    In-update table old new a h there i s ha,
    In-update table old new b h there i s hb,
    h.keys a b,
  );
  slots = λ a b ha hb t. elim (In-update table old new a h there i s ha) [
    | inl ea ↦ elim (In-update table old new b h there i s hb) [
      | inl eb ↦ ea ∙ sym eb
      | inr other ↦ absurd (other.1 (free b other.0 (swapped a b new ea t)))
    ]
    | inr left ↦ elim (In-update table old new b h there i s hb) [
      | inl eb ↦ absurd (left.1 (free a left.0 (subst (SameSlot a) eb t)))
      | inr right ↦ h.slots a b left.0 right.0 t
    ]
  ];
}

-- An event that stands where another stands has the slots of the other.
pub moved-SameSlot :
    (a b c : MeetingEvent)
    → SameSlot a b
    → b.session_id ≡ c.session_id
    → b.event_type ≡ c.event_type
    → b.insight_scope ≡ c.insight_scope
    → b.source_utterance_id ≡ c.source_utterance_id
    → SameSlot a c
moved-SameSlot a b c s sessions types scopes sources = record {
  sessions = s.sessions ∙ sessions;
  types = s.types ∙ types;
  scopes = s.scopes ∙ scopes;
  source = s.source;
  source_given = s.source_given;
  left_source = s.left_source;
  right_source = sym sources ∙ s.right_source;
}
