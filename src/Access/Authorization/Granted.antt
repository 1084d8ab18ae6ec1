-- ===== src/Access/Authorization/Granted.antt =====
-- A grant described by the rows alone, and what the tests of `can` say of it.
use syntrix_dr.Prelude.{
  mem-select, select-mem, Option, none, some, is_none, opt_eq, ◌==◌, ==_iff, ℕ, ◌≡◌, refl, sym, ap,
  ◌∙◌, inl, inr, ◌↔◌, arith, true, false, ◌&&◌, Memᴰ, Bool-cases, if◌then◌else◌, subst,
}
use syntrix_dr.Db.{
  Session, User, LocalCredential, Team, local_identity, RoleAssignment, RoleKey, global_admin,
  global_readonly, manager, ScopeType, get_row,
}
use syntrix_dr.Access.Grants.{
  Capability, read_event_participant_content, grants, granted, in_scope, own_team, absent, Marker,
  is_read_only,
}
use syntrix_dr.Access.Roles.{list_active_roles, is_global_admin_key, is_global_readonly_key}
use syntrix_dr.Access.Authorization.{
  Scope, global_admin_role_is_effective, role_grants, is_local, scope_matches, manages_team,
  is_manager_key, scope_type_eq,
}

-- An assignment of a role to the actor that is not revoked.
pub record Holds (s : Session) (actor_id : ℕ) (role : RoleAssignment) : Type 0 where
  pub stored : Memᴰ role s.directory.role_assignments
  pub own : role.user_id ≡ actor_id
  pub in_force : role.revoked_at ≡ none

-- A LOCAL user with a credential has TOTP.
abbrev pub HasTotp : Session → ℕ → Type 0
HasTotp s actor_id =
    (u : User) (c : LocalCredential)
    → get_row (λ r. r.id) actor_id s.directory.users ≡ some u
    → u.identity_type ≡ local_identity
    → get_row (λ r. r.user_id) actor_id s.directory.local_credentials ≡ some c
    → c.totp_enabled ≡ true

-- Why a role covers a scope, by its entry in the grant table.
pub data Covers (s : Session) (actor_id : ℕ) (capability : Capability) (scope : Scope)
    (role : RoleAssignment) : Type 0 where
  unconditional :
      grants capability role.role_key ≡ granted → Covers s actor_id capability scope role
  same_scope :
      grants capability role.role_key ≡ in_scope
      → scope.scope_type ≡ some role.scope_type
      → scope.scope_id ≡ role.scope_id
      → Covers s actor_id capability scope role
  manager_of_team :
      (team_id : ℕ) (team : Team)
      → grants capability role.role_key ≡ own_team
      → role.role_key ≡ manager
      → scope.owning_team_id ≡ some team_id
      → get_row (λ t. t.id) team_id s.directory.teams ≡ some team
      → team.manager_user_id ≡ some actor_id
      → Covers s actor_id capability scope role

-- Why an actor may do something: as a Global Admin with TOTP; as a Global Read-only, where the capability
-- is to read; or by a role other than Global Admin that covers the scope.
pub data Granted (s : Session) (actor_id : ℕ) (capability : Capability) (scope : Scope)
    : Type 0 where
  as_admin :
      (role : RoleAssignment)
      → Holds s actor_id role
      → role.role_key ≡ global_admin
      → HasTotp s actor_id
      → Granted s actor_id capability scope
  as_reader :
      capability ≡ read_event_participant_content
      → (role : RoleAssignment) → Holds s actor_id role
      → role.role_key ≡ global_readonly
      → Granted s actor_id capability scope
  by_role :
      (role : RoleAssignment)
      → Holds s actor_id role
      → (role.role_key ≡ global_admin → ⊥)
      → Covers s actor_id capability scope role
      → Granted s actor_id capability scope

-- The tests of the code, and what they say.
pub active-Holds :
    (s : Session) (actor_id : ℕ) (role : RoleAssignment)
    → Memᴰ role (list_active_roles s actor_id) ↔ Holds s actor_id role
unfolding list_active_roles
active-Holds s actor_id role = (
  λ m.
      let (stored, e) =
        mem-select (λ r. (r.user_id == actor_id) && is_none r.revoked_at) role
          s.directory.role_assignments m in
      record {
        stored = stored;
        own = (==_iff role.user_id actor_id).0 (ground (arith, e));
        in_force = ground (arith, e);
      },
  λ h.
      let same = (==_iff role.user_id actor_id).1 h.own in
      let live = h.in_force in
      select-mem (λ r. (r.user_id == actor_id) && is_none r.revoked_at) role
        s.directory.role_assignments h.stored (ground (arith, same, live)),
)

pub admin-key : (k : RoleKey) → (is_global_admin_key k ≡ true) ↔ (k ≡ global_admin)
admin-key k = (λ e. ground (arith, e), λ e. ap is_global_admin_key e)

pub reader-key : (k : RoleKey) → (is_global_readonly_key k ≡ true) ↔ (k ≡ global_readonly)
reader-key k = (λ e. ground (arith, e), λ e. ap is_global_readonly_key e)

pub read-capability :
    (c : Capability) → (is_read_only c ≡ true) ↔ (c ≡ read_event_participant_content)
read-capability c = (λ e. ground (arith, e), λ e. ap is_read_only e)

pub totp :
    (s : Session) (actor_id : ℕ)
    → (global_admin_role_is_effective s actor_id ≡ true) ↔ HasTotp s actor_id
unfolding global_admin_role_is_effective
totp s actor_id =
    split (get_row (λ r. r.id) actor_id s.directory.users)
      (get_row (λ r. r.user_id) actor_id s.directory.local_credentials)
  where
    split :
        (o : Option User) (d : Option LocalCredential)
        → ((elim o [
          | none ↦ true
          | some user ↦
              if is_local user.identity_type
              then elim d [ none ↦ true | some credential ↦ credential.totp_enabled ]
              else true
        ])
            ≡ true)
          ↔ ((u : User) (c : LocalCredential)
              → o ≡ some u
              → u.identity_type ≡ local_identity
              → d ≡ some c
              → c.totp_enabled ≡ true)
    split none d = (λ _ u c e. absurd (grind (arith, e)), λ _. refl)
    split (some v) none = (λ _ u c _ _ e. absurd (grind (arith, e)), λ _. ground arith)
    split (some v) (some k) = (
      λ e u c eu loc ec.
          let su : v ≡ u = grind (arith, eu) in
          let sc : k ≡ c = grind (arith, ec) in
          let l = ap (λ r. r.identity_type) su ∙ loc in
          ap (λ r. r.totp_enabled) (sym sc) ∙ ground (arith, e, l),
      λ met. elim (Bool-cases (is_local v.identity_type)) [
        | inl h ↦ let q = met v k refl (ground (arith, h)) refl in ground (arith, h, q)
        | inr h ↦ ground (arith, h)
      ],
    )

opt-equal : (a b : Option ℕ) → (opt_eq a b ≡ true) ↔ (a ≡ b)
opt-equal none none = (λ _. refl, λ _. refl)
opt-equal (some a) (some b) =
    (λ e. ap some ((==_iff a b).0 e), λ e. (==_iff a b).1 (grind (arith, e)))
opt-equal none (some b) = (λ e. absurd (grind (arith, e)), λ e. absurd (grind (arith, e)))
opt-equal (some a) none = (λ e. absurd (grind (arith, e)), λ e. absurd (grind (arith, e)))

same-type : (a b : ScopeType) → (scope_type_eq a b ≡ true) ↔ (a ≡ b)
same-type a b = (to a b, λ e. subst (λ x. scope_type_eq a x ≡ true) e (itself a))
  where
    to : (a b : ScopeType) → scope_type_eq a b ≡ true → a ≡ b
    to a b e = ground (arith, e)

    itself : (a : ScopeType) → scope_type_eq a a ≡ true
    itself a = ground arith

matches :
    (role : RoleAssignment) (scope : Scope)
    → (scope_matches role scope ≡ true)
      ↔ ((scope.scope_type ≡ some role.scope_type) × (scope.scope_id ≡ role.scope_id))
unfolding scope_matches
matches role scope = split scope.scope_type
  where
    split :
        (o : Option ScopeType)
        → ((elim o [
          | none ↦ false
          | some k ↦ scope_type_eq role.scope_type k && opt_eq role.scope_id scope.scope_id
        ])
            ≡ true)
          ↔ ((o ≡ some role.scope_type) × (scope.scope_id ≡ role.scope_id))
    split none = (λ e. absurd (grind (arith, e)), λ (e, _). absurd (grind (arith, e)))
    split (some k) = (
      λ e. (
        ap some (sym ((same-type role.scope_type k).0 (ground (arith, e)))),
        sym ((opt-equal role.scope_id scope.scope_id).0 (ground (arith, e))),
      ),
      λ (e, i).
          let a = (same-type role.scope_type k).1 (sym (grind (arith, e))) in
          let b = (opt-equal role.scope_id scope.scope_id).1 (sym i) in ground (arith, a, b),
    )

-- The actor is the Manager in charge of the Team.
abbrev Manages : Session → ℕ → Option ℕ → Type 0
Manages s actor_id o =
    (team_id : ℕ) × (team : Team) × (o ≡ some team_id)
    × (get_row (λ t. t.id) team_id s.directory.teams ≡ some team)
    × (team.manager_user_id ≡ some actor_id)

managed :
    (s : Session) (actor_id : ℕ) (o : Option ℕ)
    → (manages_team s actor_id o ≡ true) ↔ Manages s actor_id o
unfolding manages_team
managed s actor_id none =
    (λ e. absurd (grind (arith, e)), λ (i, team, e, _, _). absurd (grind (arith, e)))
managed s actor_id (some team_id) = split (get_row (λ t. t.id) team_id s.directory.teams) refl
  where
    split :
        (r : Option Team)
        → get_row (λ t. t.id) team_id s.directory.teams ≡ r
        → ((elim r [ none ↦ false | some team ↦ opt_eq team.manager_user_id (some actor_id) ])
            ≡ true)
          ↔ Manages s actor_id (some team_id)
    split none row = (
      λ e. absurd (grind (arith, e)),
      λ (i, team, same, found, _).
          let k : team_id ≡ i = grind (arith, same) in
          let clash : none ≡ some team =
            sym row ∙ ap (λ j. get_row (λ t. t.id) j s.directory.teams) k ∙ found in
          absurd (grind (arith, clash)),
    )
    split (some t) row = (
      λ e. (team_id, t, refl, row, (opt-equal t.manager_user_id (some actor_id)).0 e),
      λ (i, team, same, found, his).
          let k : team_id ≡ i = grind (arith, same) in
          let both : some t ≡ some team =
            sym row ∙ ap (λ j. get_row (λ t. t.id) j s.directory.teams) k ∙ found in
          let it : t ≡ team = grind (arith, both) in
          (opt-equal t.manager_user_id (some actor_id)).1 (ap (λ x. x.manager_user_id) it ∙ his),
    )

pub covers :
    (s : Session) (actor_id : ℕ) (capability : Capability) (scope : Scope) (role : RoleAssignment)
    → (role_grants s actor_id capability scope role ≡ true)
      ↔ Covers s actor_id capability scope role
unfolding role_grants
covers s actor_id capability scope role = (to (grants capability role.role_key) refl, from)
  where
    to :
        (m : Marker)
        → grants capability role.role_key ≡ m
        → (elim m [
          | granted ↦ true
          | in_scope ↦ scope_matches role scope
          | own_team ↦ is_manager_key role.role_key && manages_team s actor_id scope.owning_team_id
          | absent ↦ false
        ])
          ≡ true
        → Covers s actor_id capability scope role
    to granted q e = unconditional q
    to in_scope q e = let (k, i) = (matches role scope).0 e in same_scope q k i
    to own_team q e =
        let (i, team, there, found, his) =
          (managed s actor_id scope.owning_team_id).0 (ground (arith, e)) in
        manager_of_team i team q (ground (arith, e)) there found his
    to absent q e = absurd (grind (arith, e))

    by_marker :
        (m : Marker)
        → grants capability role.role_key ≡ m
        → role_grants s actor_id capability scope role ≡ (elim m [
          | granted ↦ true
          | in_scope ↦ scope_matches role scope
          | own_team ↦ is_manager_key role.role_key && manages_team s actor_id scope.owning_team_id
          | absent ↦ false
        ])
    by_marker m q =
        ap
          (λ m. elim m [
            | granted ↦ true
            | in_scope ↦ scope_matches role scope
            | own_team ↦
                is_manager_key role.role_key && manages_team s actor_id scope.owning_team_id
            | absent ↦ false
          ])
          q

    from :
        Covers s actor_id capability scope role
        → role_grants s actor_id capability scope role ≡ true
    from (unconditional q) = by_marker granted q
    from (same_scope q k i) = by_marker in_scope q ∙ (matches role scope).1 (k, i)
    from (manager_of_team i team q is_one there found his) =
        let m = (managed s actor_id scope.owning_team_id).1 (i, team, there, found, his) in
        let k = ap is_manager_key is_one in by_marker own_team q ∙ ground (arith, k, m)
