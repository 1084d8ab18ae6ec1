-- ===== src/Access/Visibility.antt =====
-- Who sees an Event: `user_can_see_event` of dr_events/participants.py.
use syntrix_dr.Prelude.{ℕ, Bool, ◌&&◌, ◌||◌, ◌==◌, is_none, any}
use syntrix_dr.Db.{Session}
use syntrix_dr.Access.Authorization.{is_global_admin, is_global_readonly}

unfoldable pub is_participant : Session → ℕ → ℕ → Bool
is_participant s dr_event_id user_id =
    any (λ p. (p.dr_event_id == dr_event_id) && (p.user_id == user_id) && is_none p.removed_at)
      s.participants

unfoldable pub user_can_see_event : Session → ℕ → ℕ → Bool
unfolding is_participant is_global_admin is_global_readonly
user_can_see_event s user_id dr_event_id =
    is_global_admin s user_id
    || (is_global_readonly s user_id || is_participant s dr_event_id user_id)
