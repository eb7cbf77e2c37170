-- ===== src/Session/Participants.antt =====
-- server/app/contexts/participation/domain/session_participant.py. `str.casefold` is Unicode's
-- table of foldings, and is a parameter.
pub mod Names
use Prim.Native.Char.{code}
use Prim.Native.String.{◌++◌ as ◌<>◌}
use meeting_overlay_assistan.Base.{
  String, ◌≡◌, refl, Bool, true, false, not, ◌||◌, Option, none, some, List, [], ◌∷◌, ◌++◌, map,
  arith, Eq, ◌==◌, contains, if◌then◌else◌, string_eq, or_text,
}
use meeting_overlay_assistan.Base.Text.{is_space, is_empty, strip}

pub record SessionParticipant : Type 0 where
  pub name : String
  pub normalized_name : String
  pub contact_id : Option String
  pub account_id : Option String
  pub email : Option String
  pub job_title : Option String
  pub department : Option String
  pub resolution_status : String

-- The next character belongs to the same word.
abbrev begins_solid : String → Bool
begins_solid String.[] = false
begins_solid (String.◌∷◌ c s) = not (is_space (code c))

abbrev grow_first : String → List String → List String
grow_first c [] = c ∷ []
grow_first c (w ∷ ws) = (c <> w) ∷ ws

-- `str.split()`: the words between runs of spaces.
unfoldable pub split : String → List String
split String.[] = []
split (String.◌∷◌ c s) =
    let rest = split s in
    let here = String.◌∷◌ c String.[] in
    if is_space (code c) then rest else if begins_solid s then grow_first here rest else here ∷ rest

-- `" ".join(words)`
unfoldable pub join_spaced : List String → String
join_spaced [] = ""
join_spaced (w ∷ []) = w
join_spaced (w ∷ v ∷ ws) = w <> (" " <> join_spaced (v ∷ ws))

module _ (casefold : String → String) where
  unfoldable pub normalize_participant_name : String → String
  unfolding split join_spaced
  normalize_participant_name value = casefold (join_spaced (split (strip value)))

-- The body of the loop over the raw names. `seen` holds what `normalized` holds.
abbrev pub add_name : List String → String → List String
add_name normalized value =
    if is_empty value || contains normalized value then normalized else normalized ++ value ∷ []

unfoldable pub collect_names : List String → List String → List String
collect_names normalized [] = normalized
collect_names normalized (raw_value ∷ rest) =
    collect_names (add_name normalized (strip raw_value)) rest

unfoldable pub normalize_participant_names : Option (List String) → List String
unfolding collect_names
normalize_participant_names none = []
normalize_participant_names (some names) = collect_names [] names

-- `linked_by_name.get(name)`
unfoldable pub find_participant : String → List SessionParticipant → Option SessionParticipant
find_participant name [] = none
find_participant name (p ∷ ps) = if p.name == name then some p else find_participant name ps

module _ (casefold : String → String) (default_account_id : Option String) where
  unfoldable pub linked_snapshot : String → SessionParticipant → SessionParticipant
  linked_snapshot normalized_name item = record {
    name = normalized_name;
    normalized_name = normalize_participant_name casefold normalized_name;
    contact_id = item.contact_id;
    account_id = or_text item.account_id default_account_id;
    email = item.email;
    job_title = item.job_title;
    department = item.department;
    resolution_status = item.resolution_status;
  }

  -- The body of the loop that fills `linked_by_name`; the first link of a name stays.
  abbrev pub add_link :
      List SessionParticipant → String → SessionParticipant → List SessionParticipant
  add_link linked name item =
      if is_empty name || contains (map (λ p. p.name) linked) name
      then linked
      else linked ++ linked_snapshot name item ∷ []

  unfoldable pub link_by_name :
      List SessionParticipant → List SessionParticipant → List SessionParticipant
  unfolding linked_snapshot find_participant
  link_by_name linked [] = linked
  link_by_name linked (item ∷ rest) = link_by_name (add_link linked (strip item.name) item) rest

  unfoldable pub unmatched : String → SessionParticipant
  unmatched name = record {
    name = name;
    normalized_name = normalize_participant_name casefold name;
    contact_id = none;
    account_id = default_account_id;
    email = none;
    job_title = none;
    department = none;
    resolution_status = "unmatched";
  }

  -- `linked_by_name.get(name, SessionParticipant(name=name, …))`
  abbrev pub resolve_name : List SessionParticipant → String → SessionParticipant
  resolve_name linked name = elim (find_participant name linked) [
    | none ↦ unmatched name
    | some p ↦ p
  ]

  abbrev pub links_or_empty : Option (List SessionParticipant) → List SessionParticipant
  links_or_empty none = []
  links_or_empty (some links) = links

  -- The names given, or those of the links where none are given.
  unfoldable pub participant_names :
      Option (List String) → Option (List SessionParticipant) → List String
  unfolding normalize_participant_names
  participant_names participants links =
      let given = normalize_participant_names participants in
      elim given [
        | [] ↦ normalize_participant_names (some (map (λ p. p.name) (links_or_empty links)))
        | n ∷ ns ↦ n ∷ ns
      ]

  unfoldable pub normalize_session_participants :
      Option (List String) → Option (List SessionParticipant) → List SessionParticipant
  unfolding participant_names link_by_name unmatched
  normalize_session_participants participants links =
      map (resolve_name (link_by_name [] (links_or_empty links)))
        (participant_names participants links)
