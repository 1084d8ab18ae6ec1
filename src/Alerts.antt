-- ===== src/Alerts.antt =====
-- Alerts (comments_mentions_notifications/commands.py), as far as other components resolve them.
use syntrix_dr.Prelude.{ℕ, Bool, true, false, ◌&&◌, Option, some, opt_eq, is_none}
use syntrix_dr.Db.{
  Command, Alert, AlertType, blocker_escalated, TargetType, blocker_target, map_where,
}
use syntrix_dr.Db.Writing.{modify}

abbrev pub is_escalation : AlertType → Bool
is_escalation blocker_escalated = true
is_escalation _ = false

abbrev pub is_blocker_target : Option TargetType → Bool
is_blocker_target (some blocker_target) = true
is_blocker_target _ = false

-- An unresolved escalation of the Blocker.
abbrev pub is_open_escalation : ℕ → Alert → Bool
is_open_escalation blocker_id a =
    is_escalation a.alert_type
    && is_blocker_target a.target_type
    && opt_eq a.target_id (some blocker_id)
    && is_none a.resolved_at

-- `resolve_alerts` for `AlertType.BLOCKER_ESCALATED` on a Blocker; nobody reads the number it returns.
unfoldable pub resolve_escalations : (blocker_id at : ℕ) → Command (Unit {0})
resolve_escalations blocker_id at = modify (λ s. record s {
  alerts =
      map_where (is_open_escalation blocker_id) (λ a. record a { resolved_at = some at }) s.alerts;
})
