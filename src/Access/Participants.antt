-- ===== src/Access/Participants.antt =====
-- Participants of an Event (dr_events/participants.py).
use text.Mathlib.Text.{◌==◌ as str_eq}
use syntrix_dr.Prelude.{
  ℕ, String, Bool, ◌&&◌, Option, none, some, [], ◌∷◌, ◌++◌, ◌==◌, is_none, is_some, select,
}
use syntrix_dr.Db.{Command, Read, DrEventParticipant, map_where}
use syntrix_dr.Db.Reading.{scalar_one_or_none}
use syntrix_dr.Db.Writing.{◌>>=◌, pure, query, modify, now, choose}

-- An active row of this key.
abbrev pub is_active_row : (dr_event_id user_id : ℕ) (source : String) → DrEventParticipant → Bool
is_active_row dr_event_id user_id source p =
    (p.dr_event_id == dr_event_id)
    && (p.user_id == user_id)
    && str_eq p.source source
    && is_none p.removed_at

unfoldable pub active_row :
    (dr_event_id user_id : ℕ) (source : String) → Read (Option DrEventParticipant)
active_row dr_event_id user_id source s =
    scalar_one_or_none (select (is_active_row dr_event_id user_id source) s.participants)

-- The savepoint around the INSERT matters only when another transaction inserted the same key since.
unfoldable pub enrol_participant : (dr_event_id user_id : ℕ) (source : String) → Command (Unit {0})
unfolding active_row
enrol_participant dr_event_id user_id source = do
  existing ← query (active_row dr_event_id user_id source)
  choose (is_some existing) (pure tt) (
      modify (λ s. record s {
        participants =
            s.participants
            ++ record {
              dr_event_id = dr_event_id;
              user_id = user_id;
              source = source;
              removed_at = none;
            }
              ∷ [];
      }))

unfoldable pub remove_participant : (dr_event_id user_id : ℕ) (source : String) → Command (Unit {0})
unfolding active_row
remove_participant dr_event_id user_id source = do
  existing ← query (active_row dr_event_id user_id source)
  choose (is_none existing) (pure tt) (do
    at ← now
    modify (λ s. record s {
      participants =
          map_where (is_active_row dr_event_id user_id source)
            (λ p. record p { removed_at = some at }) s.participants;
    }))
