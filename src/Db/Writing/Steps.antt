-- ===== src/Db/Writing/Steps.antt =====
-- What holds when a command succeeds, step by step through its do block.
use syntrix_dr.Prelude.{
  ℕ, ◌≡◌, refl, sym, ◌∙◌, ◌+◌, [], ◌∷◌, ◌++◌, arith, Bool, true, false, Option, none, some, subst,
}
use syntrix_dr.Db.Rows.{Override, TargetType, Payload, AuditEvent, OutboxEvent, OutboxEventType}
use syntrix_dr.Db.Store.{Session}
use syntrix_dr.Db.Monad.{Error, Result, ok, err, Read, Command}
use syntrix_dr.Db.Writing.{
  guard, expect, query, modify, pure, raise, when, choose, record_override, now, new_uuid,
  write_audit, write_outbox, ◌>>=◌,
}

-- `ok (a, s)`
abbrev pub done : {A : Type 0} → A → Session → Result (A × Session)
done a s = ok (a, s)

-- `Q` holds of what the command returns, if it returns.
pub record Ensures {A : Type 0} (m : Command A) (s : Session) (Q : A → Session → Type 0)
    : Type 0 where
  pub result : (a : A) (s' : Session) → m s ≡ done a s' → Q a s'

-- What a computed outcome says.
abbrev Holds : {A : Type 0} → Result (A × Session) → (A → Session → Type 0) → Type 0
Holds (ok (a, s)) Q = Q a s
Holds (err e) Q = Unit {0}

returned :
    {A : Type 0} (a b : A) (s s' : Session) (Q : A → Session → Type 0)
    → Q a s
    → done a s ≡ done b s'
    → Q b s'
returned a b s s' Q h e = subst (λ r. Holds r Q) e h

pub raised : {A : Type 0} {e : Error} {x : A} → Result.err e ≡ ok x → ⊥
raised e = grind arith

pub after :
    {A B : Type 0} (m : Command A) (f : A → Command B) {s : Session} {Q : B → Session → Type 0}
    → Ensures m s (λ a s'. Ensures (f a) s' Q)
    → Ensures (m >>= f) s Q
unfolding ◌>>=◌
after {A} {B} m f {s} {Q} h = record { result = λ b s''. split b s'' (m s) refl }
  where
    split :
        (b : B) (s'' : Session) (r : Result (A × Session))
        → m s ≡ r
        → (elim r [ ok (a, s') ↦ f a s' | err e ↦ err e ]) ≡ done b s''
        → Q b s''
    split b s'' (ok (a, s')) e = (h.result a s' e).result b s''
    split b s'' (err x) e = λ d. absurd (raised d)

pub after_guard :
    (c : Bool) (e : Error) {s : Session} {Q : Unit {0} → Session → Type 0}
    → (c ≡ true → Q tt s)
    → Ensures (guard c e) s Q
unfolding guard
after_guard true e {s} {Q} h = record { result = λ a s'. returned tt a s s' Q (h refl) }
after_guard false e h = record { result = λ a s' d. absurd (raised d) }

pub after_expect :
    {A : Type 0} (o : Option A) (e : Error) {s : Session} {Q : A → Session → Type 0}
    → ((a : A) → o ≡ some a → Q a s)
    → Ensures (expect o e) s Q
unfolding expect
after_expect none e h = record { result = λ a s' d. absurd (raised d) }
after_expect (some x) e {s} {Q} h = record { result = λ a s'. returned x a s s' Q (h x refl) }

pub after_query :
    {A : Type 0} (r : Read A) {s : Session} {Q : A → Session → Type 0}
    → ((a : A) → r s ≡ ok a → Q a s)
    → Ensures (query r) s Q
unfolding query
after_query {A} r {s} {Q} h = record { result = λ b s'. split b s' (r s) refl }
  where
    split :
        (b : A) (s' : Session) (x : Result A)
        → r s ≡ x
        → (elim x [ ok a ↦ done a s | err e ↦ err e ]) ≡ done b s'
        → Q b s'
    split b s' (ok a) e = returned a b s s' Q (h a e)
    split b s' (err x) e = λ d. absurd (raised d)

-- A command that returns at once.
pub after_return :
    {A : Type 0} {m : Command A} (a : A) (s' : Session) {s : Session} {Q : A → Session → Type 0}
    → m s ≡ done a s'
    → Q a s'
    → Ensures m s Q
after_return a s' {s} {Q} e h = record { result = λ b s'' d. returned a b s' s'' Q h (sym e ∙ d) }

pub after_asks :
    {A : Type 0} (f : Session → A) {s : Session} {Q : A → Session → Type 0}
    → Q (f s) s
    → Ensures (query (λ s. ok (f s))) s Q
unfolding query
after_asks f {s} h = after_return (f s) s refl h

pub after_modify :
    (f : Session → Session) {s : Session} {Q : Unit {0} → Session → Type 0}
    → Q tt (f s)
    → Ensures (modify f) s Q
after_modify f {s} h = after_return tt (f s) refl h

pub after_pure :
    {A : Type 0} (a : A) {s : Session} {Q : A → Session → Type 0} → Q a s → Ensures (pure a) s Q
after_pure a {s} h = after_return a s refl h

pub after_raise :
    {A : Type 0} (e : Error) {s : Session} {Q : A → Session → Type 0} → Ensures (raise e) s Q
after_raise e = record { result = λ x s' d. absurd (raised d) }

pub after_now :
    {s : Session} {Q : ℕ → Session → Type 0}
    → Q (s.clock_readings s.draws) (record s { draws = s.draws + 1 })
    → Ensures now s Q
unfolding now
after_now {s} h = after_return (s.clock_readings s.draws) (record s { draws = s.draws + 1 }) refl h

pub after_new_uuid :
    {s : Session} {Q : ℕ → Session → Type 0}
    → Q (s.uuid_supply s.draws) (record s { draws = s.draws + 1 })
    → Ensures new_uuid s Q
unfolding new_uuid
after_new_uuid {s} h =
    after_return (s.uuid_supply s.draws) (record s { draws = s.draws + 1 }) refl h

pub after_write_audit :
    (row : AuditEvent) {s : Session} {Q : Unit {0} → Session → Type 0}
    → Q tt (record s { audit = s.audit ++ row ∷ [] })
    → Ensures (write_audit row) s Q
unfolding write_audit
after_write_audit row {s} h = after_return tt (record s { audit = s.audit ++ row ∷ [] }) refl h

-- The row that `write_outbox` appends.
abbrev pub outbox_row :
    Session → TargetType → ℕ → OutboxEventType → Payload → Option ℕ → OutboxEvent
outbox_row s target id event_type payload dr_event_id = record {
  aggregate_type = target;
  aggregate_id = id;
  dr_event_id = dr_event_id;
  event_type = event_type;
  payload = payload;
  occurred_at = s.clock_readings s.draws;
}

pub after_write_outbox :
    (target : TargetType) (id : ℕ) (event_type : OutboxEventType) (payload : Payload)
    (dr_event_id : Option ℕ) {s : Session} {Q : Unit {0} → Session → Type 0}
    → Q tt (record s {
      outbox = s.outbox ++ outbox_row s target id event_type payload dr_event_id ∷ [];
      draws = s.draws + 1;
    })
    → Ensures (write_outbox target id event_type payload dr_event_id) s Q
unfolding write_outbox
after_write_outbox target id event_type payload dr_event_id {s} h = after_return tt _ refl h

pub weaken :
    {A : Type 0} {m : Command A} {s : Session} {P : A → Session → Type 0} (Q : A → Session → Type 0)
    → Ensures m s P
    → ((a : A) (s' : Session) → P a s' → Q a s')
    → Ensures m s Q
weaken Q h imp = record { result = λ a s' e. imp a s' (h.result a s' e) }

pub after_when :
    (b : Bool) (m : Command (Unit {0})) {s : Session} {Q : Unit {0} → Session → Type 0}
    → (b ≡ true → Ensures m s Q)
    → (b ≡ false → Q tt s)
    → Ensures (when b m) s Q
unfolding when
after_when b m {s} {Q} h k = split b h k
  where
    split : (b : Bool) → (b ≡ true → Ensures m s Q) → (b ≡ false → Q tt s) → Ensures (when b m) s Q
    split true h k = h refl
    split false h k = after_pure tt (k refl)

pub after_choose :
    {A : Type 0} (b : Bool) (m n : Command A) {s : Session} {Q : A → Session → Type 0}
    → (b ≡ true → Ensures m s Q)
    → (b ≡ false → Ensures n s Q)
    → Ensures (choose b m n) s Q
unfolding choose
after_choose b m n {s} {Q} h k = split b h k
  where
    split :
        (b : Bool)
        → (b ≡ true → Ensures m s Q)
        → (b ≡ false → Ensures n s Q)
        → Ensures (choose b m n) s Q
    split true h k = h refl
    split false h k = k refl

pub after_record_override :
    (row : Override) {s : Session} {Q : Unit {0} → Session → Type 0}
    → Q tt (record s { overrides = s.overrides ++ row ∷ [] })
    → Ensures (record_override row) s Q
unfolding record_override
after_record_override row {s} h = after_return tt _ refl h
