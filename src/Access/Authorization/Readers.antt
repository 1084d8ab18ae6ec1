-- ===== src/Access/Authorization/Readers.antt =====
-- A Global Read-only user reads and does nothing else.
use syntrix_dr.Prelude.{ℕ, ◌≡◌, refl, ap, ◌∙◌, inl, inr, arith, true, false, Memᴰ, Bool-cases}
use syntrix_dr.Db.{Session, RoleAssignment, RoleKey, global_readonly}
use syntrix_dr.Access.Grants.{Capability, absent, grants, is_read_only}
use syntrix_dr.Access.Roles.{list_active_roles, is_global_admin_key, is_global_readonly_key}
use syntrix_dr.Access.Authorization.{Scope, is_global_admin, role_grants, can}
use syntrix_dr.Access.Authorization.Granted.{
  Granted, as_admin, as_reader, by_role, active-Holds, covers,
}
use syntrix_dr.Access.Authorization.Laws.{can-Granted}

-- The grant table has no entry for Global Read-only.
grants-reader : (capability : Capability) → grants capability global_readonly ≡ absent
unfolding grants
grants-reader capability = ground arith

reader-key :
    (k : RoleKey)
    → is_global_readonly_key k ≡ true
    → (k ≡ global_readonly) × (is_global_admin_key k ≡ false)
reader-key global_readonly e = (refl, refl)
reader-key k e = ground arith

module _ (s : Session) (actor_id : ℕ) (capability : Capability) (scope : Scope) where
  -- No grant but to read.
  reader-Granted :
      ((role : RoleAssignment)
        → Memᴰ role (list_active_roles s actor_id)
        → is_global_readonly_key role.role_key ≡ true)
      → is_read_only capability ≡ false
      → Granted s actor_id capability scope
      → ⊥
  unfolding is_global_admin role_grants
  reader-Granted readers writes (as_admin r held key _) =
      let admin = ap is_global_admin_key key in
      ground
        (arith, admin, (reader-key r.role_key (readers r ((active-Holds s actor_id r).1 held))).1)
  reader-Granted readers writes (as_reader reads r held k) =
      let h = ap is_read_only reads in ground (arith, h, writes)
  reader-Granted readers writes (by_role r held _ covered) =
      let e = (covers s actor_id capability scope r).1 covered in
      let none_for =
        ap (grants capability)
          (reader-key r.role_key (readers r ((active-Holds s actor_id r).1 held))).0
        ∙ grants-reader capability in
      ground (arith, e, none_for)

  -- An actor all of whose active roles are Global Read-only is refused every capability, at every scope,
  -- other than the one that only reads.
  pub can-reader :
      ((role : RoleAssignment)
        → Memᴰ role (list_active_roles s actor_id)
        → is_global_readonly_key role.role_key ≡ true)
      → is_read_only capability ≡ false
      → can s actor_id capability scope ≡ false
  can-reader readers writes = elim (Bool-cases (can s actor_id capability scope)) [
    | inl h ↦ absurd (reader-Granted readers writes ((can-Granted s actor_id capability scope).0 h))
    | inr h ↦ h
  ]
