-- ===== src/Access/Policies.antt =====
-- `PolicyService.resolve` of policies_admin/queries.py: the most specific live value of a policy.
use text.Mathlib.Text.{◌==◌ as str_eq}
use syntrix_dr.Prelude.{
  ℕ, String, ◌&&◌, Option, none, some, List, [], ◌∷◌, ◌==◌, opt_eq, is_none, select, first,
  if◌then◌else◌,
}
use syntrix_dr.Db.{
  Session, PolicyJson, policy_null, PolicyDefinition, PolicyValue, ScopeType, global_scope,
  event_scope, stream_scope, application_scope,
}
use syntrix_dr.Access.Authorization.{scope_type_eq}

-- `by_scope.get((scope_type, scope_id))`: a dict built from the rows keeps the last of equal keys.
unfoldable pub value_at : ScopeType → Option ℕ → List PolicyValue → Option PolicyJson
value_at k i [] = none
value_at k i (v ∷ vs) = elim (value_at k i vs) [
  | some later ↦ some later
  | none ↦ if scope_type_eq v.scope_type k && opt_eq v.scope_id i then some v.value else none
]

-- A scope other than GLOBAL counts only if it has an id.
abbrev pub value_at_id : ScopeType → Option ℕ → List PolicyValue → Option PolicyJson
value_at_id k none vs = none
value_at_id k (some i) vs = value_at k (some i) vs

abbrev pub or_else : Option PolicyJson → Option PolicyJson → Option PolicyJson
or_else (some v) other = some v
or_else none other = other

abbrev pub or_default : Option PolicyJson → PolicyJson → PolicyJson
or_default (some v) d = v
or_default none d = d

-- `_pick_effective`: APPLICATION, WORK_STREAM, DR_EVENT, GLOBAL, then the default.
unfoldable pub pick_effective :
    PolicyDefinition
    → List PolicyValue
    → (event_id work_stream_id application_id : Option ℕ) → PolicyJson
unfolding value_at
pick_effective definition values event_id work_stream_id application_id =
    or_default
      (or_else (value_at_id application_scope application_id values) (
        or_else (value_at_id stream_scope work_stream_id values)
          (or_else (value_at_id event_scope event_id values) (value_at global_scope none values))))
      definition.default_value

unfoldable pub active_values : Session → ℕ → List PolicyValue
active_values s policy_definition_id =
    select (λ v. (v.policy_definition_id == policy_definition_id) && is_none v.superseded_at)
      s.directory.policy_values

-- `None` for an unknown key.
unfoldable pub resolve :
    Session → String → (event_id work_stream_id application_id : Option ℕ) → PolicyJson
unfolding pick_effective active_values
resolve s key event_id work_stream_id application_id =
    elim (first (λ d. str_eq d.key key) s.directory.policy_definitions) [
      | none ↦ policy_null
      | some definition ↦
          pick_effective definition (active_values s definition.id) event_id work_stream_id
            application_id
    ]
