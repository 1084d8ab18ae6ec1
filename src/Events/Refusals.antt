-- ===== src/Events/Refusals.antt =====
-- The order in which the six Event commands refuse a call: a blank reason of `cancel`, then authorization,
-- then existence, then the version, then the Event's status.
use syntrix_dr.Prelude.{
  ℕ, ◌≡◌, refl, ap, ◌∙◌, String, Bool, true, false, not, Option, none, some, ◌==◌, is_none,
  if◌then◌else◌, arith, Bool-cases, inl, inr,
}
use syntrix_dr.Prelude.Text.{clean}
use syntrix_dr.Db.{
  Session, Command, Result, ok, err, Error, authorization_required, concurrency_conflict,
  dr_event_not_found, invalid_event_transition, cancel_reason_required, DrEvent, EventStatus,
  active, failover_in_progress, closed, cancelled, get_row,
}
use syntrix_dr.Db.Writing.{◌>>=◌, query, guard, expect, pure}
use syntrix_dr.Access.Grants.{event_lifecycle_command}
use syntrix_dr.Access.Authorization.{can, no_scope}
use syntrix_dr.Events.Queries.{is_terminal_event}
use syntrix_dr.Events.Lifecycle.{
  legal_event_move, require_lifecycle, load_event, begin_transition, activate, start_failover,
  mark_failed_over, start_failback, close, cancel,
}

-- A call of the service, without its actor, Event and version.
pub data EventRequest : Type 0 where
  to_activate : (override_reason : Option String) → EventRequest
  to_start_failover : (network_cut_at : Option ℕ) → EventRequest
  to_mark_failed_over to_start_failback : EventRequest
  to_close : (closure_exception_reason : Option String) → EventRequest
  to_cancel : (reason : String) → EventRequest

unfoldable pub respond : EventRequest → (actor_id event_id expected_version : ℕ) → Command DrEvent
respond (to_activate reason) actor_id event_id version = activate actor_id event_id version reason
respond (to_start_failover cut) actor_id event_id version =
    start_failover actor_id event_id version cut
respond to_mark_failed_over actor_id event_id version = mark_failed_over actor_id event_id version
respond to_start_failback actor_id event_id version = start_failback actor_id event_id version
respond (to_close reason) actor_id event_id version = close actor_id event_id version reason
respond (to_cancel reason) actor_id event_id version = cancel actor_id event_id version reason

abbrev pub target_of : EventRequest → EventStatus
target_of (to_activate reason) = active
target_of (to_start_failover cut) = failover_in_progress
target_of to_mark_failed_over = EventStatus.failed_over
target_of to_start_failback = EventStatus.failback_in_progress
target_of (to_close reason) = closed
target_of (to_cancel reason) = cancelled

-- Whether the request may find the Event in this status.
abbrev pub may_find : EventRequest → EventStatus → Bool
may_find (to_cancel reason) status = not (is_terminal_event status)
may_find request status = legal_event_move status (target_of request)

abbrev pub is_blank_cancel : EventRequest → Bool
is_blank_cancel (to_cancel reason) = is_none (clean (some reason))
is_blank_cancel _ = false

abbrev opening_error :
    (allowed : Bool)
    → Option DrEvent
    → (version : ℕ) → (EventStatus → Bool)
    → EventStatus
    → Option Error
opening_error false found version legal target = some authorization_required
opening_error true none version legal target = some dr_event_not_found
opening_error true (some e) version legal target =
    if e.version == version
    then (if legal e.status then none else some (invalid_event_transition e.status target))
    else some concurrency_conflict

-- The first reason to refuse, if there is one.
unfoldable pub first_error :
    EventRequest → Session → (actor_id event_id expected_version : ℕ) → Option Error
first_error request s actor_id event_id version =
    if is_blank_cancel request
    then some cancel_reason_required
    else opening_error (can s actor_id event_lifecycle_command no_scope)
        (get_row (λ e. e.id) event_id s.events) version (may_find request) (target_of request)

refused :
    {A B : Type 0} (m : Command A) (f : A → Command B) {s : Session} {e : Error}
    → m s ≡ err e
    → (m >>= f) s ≡ err e
unfolding ◌>>=◌
refused m f h = ap (λ r. elim r [ ok (a, s') ↦ f a s' | err e ↦ err e ]) h

passed :
    {A B : Type 0} (m : Command A) (f : A → Command B) {a : A} {s : Session} {e : Error}
    → m s ≡ ok (a, s)
    → f a s ≡ err e
    → (m >>= f) s ≡ err e
unfolding ◌>>=◌
passed m f h k = ap (λ r. elim r [ ok (a, s') ↦ f a s' | err e ↦ err e ]) h ∙ k

guarded :
    {B : Type 0} (c : Bool) (e : Error) (f : Unit {0} → Command B) (s : Session)
    → c ≡ false
    → (guard c e >>= f) s ≡ err e
unfolding guard
guarded c e f s h = refused (guard c e) f (ap (λ b. guard b e s) h)

require-answer :
    (actor_id : ℕ) (s : Session)
    → require_lifecycle actor_id s
      ≡ guard (can s actor_id event_lifecycle_command no_scope) authorization_required s
unfolding require_lifecycle query ◌>>=◌
require-answer actor_id s = refl

-- What `load_event` answers, by the row that it finds.
abbrev loaded : Option DrEvent → ℕ → Session → Result (DrEvent × Session)
loaded none version s = err dr_event_not_found
loaded (some e) version s = if e.version == version then ok (e, s) else err concurrency_conflict

load-answer :
    (event_id version : ℕ) (s : Session)
    → load_event event_id version s ≡ loaded (get_row (λ e. e.id) event_id s.events) version s
unfolding load_event query expect guard ◌>>=◌
load-answer event_id version s = split (get_row (λ e. e.id) event_id s.events)
  where
    split :
        (o : Option DrEvent)
        → (expect o dr_event_not_found >>= λ e.
              guard (e.version == version) concurrency_conflict >>= λ _. pure e)
            s
          ≡ loaded o version s
    split none = refl
    split (some e) = ground arith

opens :
    {B : Type 0} (actor_id event_id version : ℕ) (legal : EventStatus → Bool) (target : EventStatus)
    (k : DrEvent → Command B) (s : Session) (x : Error)
    → ((e : DrEvent)
        → legal e.status ≡ false
        → k e s ≡ err (invalid_event_transition e.status target))
    → opening_error
        (can s actor_id event_lifecycle_command no_scope)
        (get_row (λ e. e.id) event_id s.events)
        version
        legal
        target
      ≡ some x
    → (require_lifecycle actor_id >>= λ _. load_event event_id version >>= k) s ≡ err x
unfolding guard
opens {B} actor_id event_id version legal target k s x illegal =
    split (can s actor_id event_lifecycle_command no_scope) (get_row (λ e. e.id) event_id s.events)
      (require-answer actor_id s) (load-answer event_id version s)
  where
    on_row :
        (e : DrEvent)
        → load_event event_id version s ≡ loaded (some e) version s
        → opening_error true (some e) version legal target ≡ some x
        → (load_event event_id version >>= k) s ≡ err x
    on_row e q h = elim (Bool-cases (e.version == version)) [
      | inr other ↦ refused _ k (q ∙ ground (arith, other, h))
      | inl same ↦ elim (Bool-cases (legal e.status)) [
        | inl lawful ↦ absurd (ground (arith, same, lawful, h))
        | inr wrong ↦
            passed _ k (q ∙ ground (arith, same)) (illegal e wrong ∙ ground (arith, same, wrong, h))
      ]
    ]

    split :
        (c : Bool) (o : Option DrEvent)
        → require_lifecycle actor_id s ≡ guard c authorization_required s
        → load_event event_id version s ≡ loaded o version s
        → opening_error c o version legal target ≡ some x
        → (require_lifecycle actor_id >>= λ _. load_event event_id version >>= k) s ≡ err x
    split false o p q h = refused _ _ (p ∙ ground (arith, h))
    split true none p q h = passed _ _ p (refused _ k (q ∙ ground (arith, h)))
    split true (some e) p q h = passed _ _ p (on_row e q h)

begins :
    (actor_id event_id version : ℕ) (target : EventStatus) (f : DrEvent → Command DrEvent)
    (s : Session) (x : Error)
    → opening_error
        (can s actor_id event_lifecycle_command no_scope)
        (get_row (λ e. e.id) event_id s.events)
        version
        (λ status. legal_event_move status target)
        target
      ≡ some x
    → (begin_transition actor_id event_id version target >>= f) s ≡ err x
unfolding begin_transition
begins actor_id event_id version target f s x h =
    refused (begin_transition actor_id event_id version target) f (
      opens actor_id event_id version (λ status. legal_event_move status target) target _ s x
        (λ e wrong. guarded _ _ _ s wrong) h)

-- The six Event commands refuse a call in the same order. An actor without the capability for Event
-- commands gets `authorization_required` whether the Event exists or not; then an unknown Event, a stale
-- version and a status that the command may not find are refused with their own errors. `cancel` refuses
-- a blank reason before all of these.
pub respond-first_error :
    (request : EventRequest) (s : Session) (actor_id event_id version : ℕ) (x : Error)
    → first_error request s actor_id event_id version ≡ some x
    → respond request actor_id event_id version s ≡ err x
unfolding respond first_error activate start_failover mark_failed_over start_failback close cancel
    expect
respond-first_error (to_activate reason) s actor_id event_id version x h =
    begins actor_id event_id version active _ s x h
respond-first_error (to_start_failover cut) s actor_id event_id version x h =
    begins actor_id event_id version failover_in_progress _ s x h
respond-first_error to_mark_failed_over s actor_id event_id version x h =
    begins actor_id event_id version EventStatus.failed_over _ s x h
respond-first_error to_start_failback s actor_id event_id version x h =
    begins actor_id event_id version EventStatus.failback_in_progress _ s x h
respond-first_error (to_close reason) s actor_id event_id version x h =
    begins actor_id event_id version closed _ s x h
respond-first_error (to_cancel reason) s actor_id event_id version x h =
    split (clean (some reason)) refl h
  where
    split :
        (o : Option String)
        → clean (some reason) ≡ o
        → (if is_none o
            then some cancel_reason_required
            else opening_error
                (can s actor_id event_lifecycle_command no_scope)
                (get_row (λ e. e.id) event_id s.events)
                version
                (λ status. not (is_terminal_event status))
                cancelled)
          ≡ some x
        → cancel actor_id event_id version reason s ≡ err x
    split none blank h =
        refused _ _ (ap (λ o. expect o cancel_reason_required s) blank ∙ ground (arith, h))
    split (some given) there h = passed _ _ (ap (λ o. expect o cancel_reason_required s) there) (
        opens actor_id event_id version (λ status. not (is_terminal_event status)) cancelled _ s x
          (λ e wrong. guarded _ _ _ s wrong) h)
