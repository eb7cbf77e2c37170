-- ===== src/Session/Participants/Names.antt =====
-- The names that normalisation keeps.
use meeting_overlay_assistan.Base.{
  String, ◌≡◌, refl, true, false, ◌||◌, Option, none, some, List, [], ◌∷◌, map, arith, contains,
  string_eq, Bool-cases, inl, inr,
}
use meeting_overlay_assistan.Base.Text.{is_empty, strip, strip_idem}
use meeting_overlay_assistan.Base.Lists.{All, All-append}
use meeting_overlay_assistan.Base.Distinct.{IsDistinct, IsDistinct-snoc, contains-append}
use meeting_overlay_assistan.Session.Participants.{
  SessionParticipant, add_name, collect_names, normalize_participant_names, find_participant,
  link_by_name, participant_names, normalize_session_participants, links_or_empty, resolve_name,
  unmatched,
}

-- A name that normalisation may return: not blank, with no space at its ends.
abbrev pub IsClean : String → Type 0
IsClean n = (is_empty n ≡ false) × (strip n ≡ n)

-- The raw text is blank, or its stripped form is among the names.
abbrev pub IsKept : List String → String → Type 0
IsKept names raw = (is_empty (strip raw) || contains names (strip raw)) ≡ true

record Collected (names : List String) : Type 0 where
  distinct : IsDistinct names
  clean : All IsClean names

step_Collected :
    (names : List String) (v : String)
    → strip v ≡ v
    → Collected names
    → Collected (add_name names v)
step_Collected names v h c = elim (Bool-cases (is_empty v || contains names v)) [
  | inl e ↦ rw e c
  | inr e ↦ rw e (record {
    distinct = IsDistinct-snoc names v c.distinct (ground arith);
    clean = All-append IsClean names (v ∷ []) c.clean (ground arith);
  })
]

collect_names-Collected :
    (names raws : List String) → Collected names → Collected (collect_names names raws)
unfolding collect_names
collect_names-Collected names [] c = c
collect_names-Collected names (raw ∷ rest) c =
    collect_names-Collected (add_name names (strip raw)) rest
      (step_Collected names (strip raw) (strip_idem raw) c)

-- A name that is in stays in.
collect_names-contains :
    (names raws : List String) (v : String)
    → contains names v ≡ true
    → contains (collect_names names raws) v ≡ true
unfolding collect_names
collect_names-contains names [] v h = h
collect_names-contains names (raw ∷ rest) v h =
    collect_names-contains (add_name names (strip raw)) rest v
      (ground (arith, contains-append names (strip raw ∷ []) v))

collect_names-IsKept : (names raws : List String) → All (IsKept (collect_names names raws)) raws
unfolding collect_names
collect_names-IsKept names [] = tt
collect_names-IsKept names (raw ∷ rest) = (
  ground (
    arith,
    contains-append names (strip raw ∷ []) (strip raw),
    collect_names-contains (add_name names (strip raw)) rest (strip raw),
  ),
  collect_names-IsKept (add_name names (strip raw)) rest,
)

-- Looking a name up finds a participant of that name, or invents one.
module _ (casefold : String → String) (account : Option String) where
  name-resolve_name :
      (linked : List SessionParticipant) (n : String)
      → (resolve_name casefold account linked n).name ≡ n
  unfolding find_participant unmatched
  name-resolve_name [] n = refl
  name-resolve_name (p ∷ ps) n = ground (arith, name-resolve_name ps n)

  names-resolve :
      (linked : List SessionParticipant) (ns : List String)
      → map (λ p. p.name) (map (resolve_name casefold account linked) ns) ≡ ns
  names-resolve linked [] = refl
  names-resolve linked (n ∷ ns) = cc (name-resolve_name linked n, names-resolve linked ns)

  abbrev pub names : Option (List String) → Option (List SessionParticipant) → List String
  names participants links =
      map (λ p. p.name) (normalize_session_participants casefold account participants links)

  normalize-Collected : (o : Option (List String)) → Collected (normalize_participant_names o)
  unfolding normalize_participant_names
  normalize-Collected none = record { distinct = tt; clean = tt }
  normalize-Collected (some raws) =
      collect_names-Collected [] raws (record { distinct = tt; clean = tt })

  fallback_Collected :
      (given other : List String)
      → Collected given
      → Collected other
      → Collected (elim given [ [] ↦ other | n ∷ ns ↦ n ∷ ns ])
  fallback_Collected [] other g o = o
  fallback_Collected (n ∷ ns) other g o = g

  participant_names-Collected :
      (participants : Option (List String)) (links : Option (List SessionParticipant))
      → Collected (participant_names casefold account participants links)
  unfolding participant_names
  participant_names-Collected participants links =
      fallback_Collected (normalize_participant_names participants) _
        (normalize-Collected participants)
        (normalize-Collected (some (map (λ p. p.name) (links_or_empty casefold account links))))

  -- The normalised participants have distinct names, none of them blank or with a space at an end.
  pub participants-IsClean :
      (participants : Option (List String)) (links : Option (List SessionParticipant))
      → IsDistinct (names participants links) × All IsClean (names participants links)
  unfolding normalize_session_participants
  participants-IsClean participants links =
      rw
        (names-resolve (link_by_name casefold account [] (links_or_empty casefold account links)) _)
        (
          (participant_names-Collected participants links).distinct,
          (participant_names-Collected participants links).clean,
        )

  IsKept-given :
      (given other raws : List String)
      → All (IsKept given) raws
      → All (IsKept (elim given [ [] ↦ other | n ∷ ns ↦ n ∷ ns ])) raws
  IsKept-given given other [] k = tt
  IsKept-given [] other (r ∷ rs) k = (ground arith, IsKept-given [] other rs k.1)
  IsKept-given (n ∷ ns) other (r ∷ rs) k = k

  -- Every name given is kept, up to the spaces at its ends, unless it is blank.
  pub participants_keep :
      (raws : List String) (links : Option (List SessionParticipant))
      → All (IsKept (names (some raws) links)) raws
  unfolding normalize_session_participants participant_names normalize_participant_names
  participants_keep raws links =
      rw
        (names-resolve (link_by_name casefold account [] (links_or_empty casefold account links)) _)
        (IsKept-given (collect_names [] raws) _ raws (collect_names-IsKept [] raws))
