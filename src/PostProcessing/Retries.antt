-- ===== src/PostProcessing/Retries.antt =====
-- The retries of `save`, whatever other transactions commit between its statements.
use meeting_overlay_assistan.Base.{
  ℕ, zero, suc, ◌+◌, ◌<◌, String, true, false, none, [], ◌∷◌, ◌++◌, string_eq, nat_eq, ◌≡◌, refl,
  arith, Bool-cases, inl, inr, ◌⊎◌,
}
use meeting_overlay_assistan.Base.Outcome.{Result, ok, err, runtime_error}
use meeting_overlay_assistan.PostProcessing.Utterances.{
  Utterance, UtteranceTable, Contention, last_sequence, next_sequence, is_taken, has_id,
  is_duplicate, try_save, save,
}

module _ {F : Type 0} where
  is_taken-above :
      (table : UtteranceTable F) (session_id : String) (n : ℕ)
      → last_sequence table session_id < n
      → is_taken table session_id n ≡ false
  unfolding last_sequence is_taken
  is_taken-above [] session_id n h = refl
  is_taken-above (u ∷ rest) session_id n h = ground (arith, is_taken-above rest session_id n)

  is_taken-next :
      (table : UtteranceTable F) (session_id : String)
      → is_taken table session_id (next_sequence table session_id) ≡ false
  unfolding next_sequence
  is_taken-next table session_id =
      is_taken-above table session_id (last_sequence table session_id + 1) (omega arith)

  -- The utterance, but for its number, is the last row after those that the insert met, and none of
  -- these has its id or its number in the session.
  pub record IsStored (u : Utterance F) (table : UtteranceTable F) (stored : Utterance F)
      : Type 0 where
    pub met : UtteranceTable F
    pub appended : table ≡ met ++ stored ∷ []
    pub renumbered : stored ≡ record u { seq_num = stored.seq_num }
    pub id_free : has_id met u.id ≡ false
    pub number_free : is_taken met u.session_id stored.seq_num ≡ false

  -- Other transactions bring no row of the id, and the statements raise no error of another kind.
  pub record IsOwn (others : Contention F) (id : String) : Type 0 where
    pub before_insert :
        (n : ℕ) (table : UtteranceTable F)
        → has_id table id ≡ false
        → has_id (others.before_insert n table) id ≡ false
    pub before_read :
        (n : ℕ) (table : UtteranceTable F)
        → has_id table id ≡ false
        → has_id (others.before_read n table) id ≡ false
    pub sound : (n : ℕ) → others.broken n ≡ none

  -- The utterance is stored.
  abbrev pub Saves : Utterance F → UtteranceTable F × Result (Utterance F) → Type 0
  Saves u answer = (stored : Utterance F) × ((answer.1 ≡ ok stored) × IsStored u answer.0 stored)

  module _ (others : Contention F) (u : Utterance F) (own : IsOwn others u.id) where
    -- One attempt, under the number `k`: the number is free, or the attempts left are enough.
    store_or_retry :
        (n k : ℕ) (table : UtteranceTable F)
        → has_id table u.id ≡ false
        → (is_taken (others.before_insert n table) u.session_id k ≡ false)
          ⊎ ((read : UtteranceTable F)
              → has_id read u.id ≡ false
              → Saves u
                  (try_save others n read (record u { seq_num = next_sequence read u.session_id })))
        → Saves u (try_save others (suc n) table (record u { seq_num = k }))
    unfolding try_save is_duplicate
    store_or_retry n k table fresh ready =
        let met = others.before_insert n table in
        let new = own.before_insert n table fresh in
        elim (Bool-cases (is_taken met u.session_id k)) [
          | inr free ↦
              rw (own.sound n, new, free, try_save)
                (
                  record u { seq_num = k },
                  (
                    refl,
                    record {
                      met = met;
                      appended = refl;
                      renumbered = refl;
                      id_free = new;
                      number_free = free;
                    },
                  ),
                )
          | inl taken ↦ elim ready [
            | inl free ↦ absurd (ground arith)
            | inr enough ↦
                rw (own.sound n, new, taken, try_save)
                  (enough (others.before_read n met) (own.before_read n met new))
          ]
        ]

    -- Saving an utterance of a new id stores it, unchanged but for its number, under a number that no
    -- utterance of the session has, whatever the other transactions commit before the first two
    -- inserts, if they commit nothing between the last reading of the next number and the last insert,
    -- never bring the id, and no statement raises an error of another kind.
    pub save-IsStored :
        (table : UtteranceTable F)
        → has_id table u.id ≡ false
        → ((met : UtteranceTable F) → others.before_insert 0 met ≡ met)
        → Saves u (save others table u)
    unfolding save
    save-IsStored table fresh quiet = store_or_retry 2 u.seq_num table fresh (
        inr λ read unread. store_or_retry 1 (next_sequence read u.session_id) read unread (
          inr λ later unseen.
            store_or_retry 0 (next_sequence later u.session_id) later unseen
              (inl (rw (quiet later) (is_taken-next later u.session_id)))))

  -- An id that the table has, and that no other transaction takes away, is never stored: its three
  -- attempts fail alike, although their next numbers are free, and the error is that of the numbers.
  module _ (others : Contention F) (u : Utterance F) where
    try_save-known :
        (n k : ℕ) (table : UtteranceTable F)
        → ((m : ℕ) → others.broken m ≡ none)
        → ((m : ℕ) (rows : UtteranceTable F)
            → has_id rows u.id ≡ true
            → has_id (others.before_insert m rows) u.id ≡ true)
        → ((m : ℕ) (rows : UtteranceTable F)
            → has_id rows u.id ≡ true
            → has_id (others.before_read m rows) u.id ≡ true)
        → has_id table u.id ≡ true
        → (try_save others n table (record u { seq_num = k })).1 ≡ err runtime_error
    unfolding try_save is_duplicate
    try_save-known zero k table sound kept kept' known = refl
    try_save-known (suc n) k table sound kept kept' known =
        let met = others.before_insert n table in
        let read = others.before_read n met in
        let there = kept n table known in
        rw (sound n, there, try_save)
          (try_save-known n (next_sequence read u.session_id) read sound kept kept'
            (kept' n met there))

    -- Saving an utterance whose id the table has, and keeps, raises the error of the numbers, where the
    -- statements raise no error of another kind.
    pub save-known :
        (table : UtteranceTable F)
        → ((m : ℕ) → others.broken m ≡ none)
        → ((m : ℕ) (rows : UtteranceTable F)
            → has_id rows u.id ≡ true
            → has_id (others.before_insert m rows) u.id ≡ true)
        → ((m : ℕ) (rows : UtteranceTable F)
            → has_id rows u.id ≡ true
            → has_id (others.before_read m rows) u.id ≡ true)
        → has_id table u.id ≡ true
        → (save others table u).1 ≡ err runtime_error
    unfolding save
    save-known table sound kept kept' known =
        try_save-known 3 u.seq_num table sound kept kept' known
