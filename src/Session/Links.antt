-- ===== src/Session/Links.antt =====
-- Linking a participant to a contact.
use meeting_overlay_assistan.Base.{
  String, true, false, some, or_text, ◌≡◌, ◌≢◌, refl, sym, subst, ◌⊎◌, inl, inr, Bool-cases, nat_eq,
  not, ◌&&◌, Option, List, [], ◌∷◌, map, ◌==◌, contains, if◌then◌else◌, string_eq, arith,
}
use meeting_overlay_assistan.Base.Text.{strip, is_empty}
use meeting_overlay_assistan.Base.Outcome.{Result, ok, err, value_error}
use meeting_overlay_assistan.Session.Participants.{SessionParticipant}
use meeting_overlay_assistan.Session.Entity.{
  MeetingSession, ContactLink, linked_participant, relink, link_participant_contact,
}

module _ (account : Option String) (name : String) (l : ContactLink) where
  abbrev pub relinked : SessionParticipant → SessionParticipant
  relinked p = if p.name == name then linked_participant account l p else p

  relink_lem :
      (ps : List SessionParticipant)
      → relink account name l ps ≡ (map relinked ps, contains (map (λ p. p.name) ps) name)
  unfolding relink
  relink_lem [] = refl
  relink_lem (p ∷ ps) = ground (arith, relink_lem ps)

  -- Linking renames nobody.
  names-relinked :
      (ps : List SessionParticipant) → map (λ p. p.name) (map relinked ps) ≡ map (λ p. p.name) ps
  unfolding linked_participant
  names-relinked [] = refl
  names-relinked (p ∷ ps) = ground (arith, names-relinked ps)

-- The participant is linked to the contact: it keeps its name, is the contact's, and takes from the
-- contact what the contact gives; else it keeps its own, and takes the session's account last.
pub record IsLinked (account : Option String) (l : ContactLink) (old new : SessionParticipant)
    : Type 0 where
  pub name : new.name ≡ old.name
  pub normalized_name : new.normalized_name ≡ old.normalized_name
  pub contact_id : new.contact_id ≡ some l.contact_id
  pub resolution_status : new.resolution_status ≡ "linked"
  pub account_id : new.account_id ≡ or_text l.account_id (or_text old.account_id account)
  pub email : new.email ≡ or_text l.email old.email
  pub job_title : new.job_title ≡ or_text l.job_title old.job_title
  pub department : new.department ≡ or_text l.department old.department

-- Place by place, the participants of the name are linked, and the others are the same.
abbrev pub AreRelinked :
    Option String
    → String
    → ContactLink
    → List SessionParticipant
    → List SessionParticipant
    → Type 0
AreRelinked account name l [] [] = Unit
AreRelinked account name l [] (q ∷ qs) = ⊥
AreRelinked account name l (p ∷ ps) [] = ⊥
AreRelinked account name l (p ∷ ps) (q ∷ qs) =
    (((p.name ≡ name) × IsLinked account l p q) ⊎ ((p.name ≢ name) × (q ≡ p)))
    × AreRelinked account name l ps qs

relinked-AreRelinked :
    (account : Option String) (name : String) (l : ContactLink) (ps : List SessionParticipant)
    → AreRelinked account name l ps (map (relinked account name l) ps)
unfolding linked_participant
relinked-AreRelinked account name l [] = tt
relinked-AreRelinked account name l (p ∷ ps) = (
  elim (Bool-cases (p.name == name)) [
    | inl e ↦ inl (
      ground arith,
      rw e (record {
        name = refl;
        normalized_name = refl;
        contact_id = refl;
        resolution_status = refl;
        account_id = refl;
        email = refl;
        job_title = refl;
        department = refl;
      }),
    )
    | inr e ↦ inr (ground arith, ground arith)
  ],
  relinked-AreRelinked account name l ps,
)

link_participant_contact_lem :
    (s : MeetingSession) (participant_name : String) (l : ContactLink)
    → let name = strip participant_name in
      link_participant_contact s participant_name l ≡ (
        if not (is_empty name) && contains (map (λ p. p.name) s.participant_links) name
        then ok (record s {
          participant_links = map (relinked s.account_id name l) s.participant_links;
        })
        else err value_error)
unfolding link_participant_contact
link_participant_contact_lem s participant_name l =
    ground (arith, relink_lem s.account_id (strip participant_name) l s.participant_links)

-- What an answer to the link of a name says: the name is blank or nobody's, or those of the name are
-- linked and no other participant and no other field is changed.
abbrev pub Links : MeetingSession → String → ContactLink → Result MeetingSession → Type 0
Links s name l (err e) =
    (e ≡ value_error)
    × ((is_empty name ≡ true) ⊎ (contains (map (λ p. p.name) s.participant_links) name ≡ false))
Links s name l (ok s') =
    (is_empty name ≡ false)
    × (contains (map (λ p. p.name) s.participant_links) name ≡ true)
    × AreRelinked s.account_id name l s.participant_links s'.participant_links
    × (s' ≡ record s { participant_links = s'.participant_links })

-- Linking raises exactly when the stripped name is blank or that of no participant. Otherwise each
-- participant of the name gets the contact's id, is marked as linked, and takes the details that the
-- contact gives and keeps its own else, and no other participant and no other field is changed.
pub link_participant_contact-Links :
    (s : MeetingSession) (participant_name : String) (l : ContactLink)
    → Links s (strip participant_name) l (link_participant_contact s participant_name l)
link_participant_contact-Links s participant_name l =
    let name = strip participant_name in
    let named = contains (map (λ p. p.name) s.participant_links) name in
    subst (Links s name l) (sym (link_participant_contact_lem s participant_name l))
      (elim (Bool-cases (is_empty name)) [
        | inl blank ↦ rw blank (refl, inl blank)
        | inr full ↦ elim (Bool-cases named) [
          | inr nobody ↦ rw (full, nobody) (refl, inr nobody)
          | inl there ↦
              rw (full, there)
                (full, there, relinked-AreRelinked s.account_id name l s.participant_links, refl)
        ]
      ])
