-- ===== src/Tests/Creation.antt =====
-- An Event created under another one, for an Application with an owner.
use syntrix_dr.Prelude.{ℕ, ◌≡◌, refl, none, some, [], ◌∷◌}
use syntrix_dr.Db.{Session, DrEvent, planned, system_application}
use syntrix_dr.Db.Writing.{
  choose, ◌>>=◌, query, guard, expect, now, new_uuid, write_audit, write_outbox,
}
use syntrix_dr.Db.Writing.Steps.{done}
use syntrix_dr.Access.Roles.{list_active_roles}
use syntrix_dr.Access.Authorization.{can, global_admin_role_is_effective}
use syntrix_dr.Events.Creation.{create_event, new_event}
use syntrix_dr.Events.Creation.Created.{
  MayCreate, Created, create_event-MayCreate, create_event-visible,
}
use syntrix_dr.Tests.Samples.{directory, initial, value_of, state_of}
use syntrix_dr.Tests.Events.{event}

abbrev owned : Session
owned = record initial {
  directory = record directory {
    application_owners =
        record {
          application_id = 30;
          user_id = 4;
          owner_type = system_application;
          owner_order = 1;
          deleted_at = none;
        }
        ∷ [];
  };
  events = event planned ∷ [];
}

abbrev created_event : DrEvent
created_event =
    value_of (create_event 1 "Exercise" "PLANNED_DR" (30 ∷ []) none none (some 5) owned)
      (event planned)

abbrev after_creation : Session
after_creation =
    state_of (create_event 1 "Exercise" "PLANNED_DR" (30 ∷ []) none none (some 5) owned)

creation-runs :
    create_event 1 "Exercise" "PLANNED_DR" (30 ∷ []) none none (some 5) owned
    ≡ done created_event after_creation
unfolding create_event choose query guard expect now new_uuid write_audit write_outbox ◌>>=◌
    list_active_roles global_admin_role_is_effective can
creation-runs = refl

create_event-MayCreate_example :
    (at : ℕ) × (created_event ≡ new_event created_event.id (some 5) at)
    × MayCreate owned 1 (30 ∷ []) none (some 5)
create_event-MayCreate_example =
    create_event-MayCreate 1 "Exercise" "PLANNED_DR" (30 ∷ []) none none (some 5) owned
      after_creation created_event creation-runs

create_event-visible_example : Created owned 1 (30 ∷ []) created_event after_creation
create_event-visible_example =
    create_event-visible 1 "Exercise" "PLANNED_DR" (30 ∷ []) none none (some 5) owned after_creation
      created_event creation-runs
