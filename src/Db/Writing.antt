-- ===== src/Db/Writing.antt =====
-- The monad of commands: reads, guards, the clock, new rows, the audit log and the outbox.
pub mod Steps
use syntrix_dr.Prelude.{
  ℕ, ◌+◌, ◌≡◌, refl, String, Bool, true, false, Option, none, some, List, [], ◌∷◌, ◌++◌,
}
use syntrix_dr.Db.Rows.{
  TargetType, Payload, AuditEvent, OutboxEvent, OutboxEventType, Override, ActorType, user_actor,
}
use syntrix_dr.Db.Store.{Session}
use syntrix_dr.Db.Monad.{Error, Result, ok, err, Read, Command}

abbrev pub pure : {A : Type 0} → A → Command A
pure a s = ok (a, s)

abbrev pub raise : {A : Type 0} → Error → Command A
raise e s = err e

unfoldable pub query : {A : Type 0} → Read A → Command A
query r s = elim (r s) [ ok a ↦ ok (a, s) | err e ↦ err e ]

abbrev pub modify : (Session → Session) → Command (Unit {0})
modify f s = ok (tt, f s)

infixl 5 ◌>>=◌ ◌>>◌
unfoldable pub ◌>>=◌ : {A B : Type 0} → Command A → (A → Command B) → Command B
◌>>=◌ m f s = elim (m s) [ ok (a, s') ↦ f a s' | err e ↦ err e ]

abbrev pub ◌>>◌ : {A B : Type 0} → Command A → Command B → Command B
m >> k = m >>= λ _. k

-- `if not condition: raise error`
unfoldable pub guard : Bool → Error → Command (Unit {0})
guard true e = pure tt
guard false e = raise e

-- `if condition: m else: n`
unfoldable pub choose : {A : Type 0} → Bool → Command A → Command A → Command A
choose true m n = m
choose false m n = n

unfoldable pub when : Bool → Command (Unit {0}) → Command (Unit {0})
when true m = m
when false m = pure tt

-- `if x is None: raise error`
unfoldable pub expect : {A : Type 0} → Option A → Error → Command A
expect none e = raise e
expect (some a) e = pure a

-- `clock.now()`
unfoldable pub now : Command ℕ
now s = ok (s.clock_readings s.draws, record s { draws = s.draws + 1 })

-- `uuid.uuid4()`, the default of a primary key.
unfoldable pub new_uuid : Command ℕ
new_uuid s = ok (s.uuid_supply s.draws, record s { draws = s.draws + 1 })

-- `write_audit` of core/audit.py: the row's own id and time are read by nothing and left out.
unfoldable pub write_audit : AuditEvent → Command (Unit {0})
write_audit row s = ok (tt, record s { audit = s.audit ++ row ∷ [] })

-- `write_outbox` of core/outbox.py. The type of `event_type` is the union that it checks.
unfoldable pub write_outbox :
    (aggregate_type : TargetType) (aggregate_id : ℕ) (event_type : OutboxEventType)
    (payload : Payload) (dr_event_id : Option ℕ)
    → Command (Unit {0})
unfolding now ◌>>=◌
write_outbox aggregate_type aggregate_id event_type payload dr_event_id = do
  occurred_at ← now
  let row : OutboxEvent = record {
    aggregate_type = aggregate_type;
    aggregate_id = aggregate_id;
    dr_event_id = dr_event_id;
    event_type = event_type;
    payload = payload;
    occurred_at = occurred_at;
  }
  modify (λ s. record s { outbox = s.outbox ++ row ∷ [] })

-- `record_override` of dr_events/commands.py.
unfoldable pub record_override : Override → Command (Unit {0})
record_override row s = ok (tt, record s { overrides = s.overrides ++ row ∷ [] })
