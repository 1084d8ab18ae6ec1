-- ===== src/Access/Authorization/Laws.antt =====
-- Who may do what: `can` against an independent description of a grant.
use syntrix_dr.Prelude.{
  mem-select, select-mem, ℕ, ◌≡◌, refl, sym, ap, ◌∙◌, ◌⊎◌, inl, inr, ◌↔◌, arith, Bool, true, false,
  not, ◌&&◌, List, [], ◌∷◌, Memᴰ, Memᴰ-cons, any, Bool-cases,
}
use syntrix_dr.Prelude.Memᴰ
use syntrix_dr.Db.{Session, RoleAssignment, RoleKey, global_admin}
use syntrix_dr.Access.Grants.{Capability, is_read_only}
use syntrix_dr.Access.Roles.{list_active_roles, is_global_admin_key, is_global_readonly_key}
use syntrix_dr.Access.Authorization.{
  Scope, global_admin_role_is_effective, is_global_admin, role_grants, can_with_roles,
  without_admin, can,
}
use syntrix_dr.Access.Authorization.Granted.{
  Holds, Granted, as_admin, as_reader, by_role, active-Holds, admin-key, reader-key,
  read-capability, totp, covers,
}

-- `any` finds a row, and a row is found by `any`.
pub any-found :
    {A : Type 0} (p : A → Bool) (xs : List A) → any p xs ≡ true → (x : A) × Memᴰ x xs × (p x ≡ true)
any-found p [] e = absurd (ground (arith, e))
any-found p (x ∷ xs) e = elim (Bool-cases (p x)) [
  | inl h ↦ (x, Memᴰ.head refl, h)
  | inr h ↦ let (y, m, k) = any-found p xs (ground (arith, e, h)) in (y, Memᴰ.tail m, k)
]

pub any-Mem :
    {A : Type 0} (p : A → Bool) (x : A) (xs : List A) → Memᴰ x xs → p x ≡ true → any p xs ≡ true
any-Mem p x [] m e = absurd (Memᴰ.not-nil m)
any-Mem p x (y ∷ xs) m e = elim ((Memᴰ-cons x y xs).0 m) [
  | inl same ↦ let h : p y ≡ true = ap p (sym same) ∙ e in ground (arith, h)
  | inr rest ↦ let h : any p xs ≡ true = any-Mem p x xs rest e in ground (arith, h)
]

module _ (s : Session) (actor_id : ℕ) (capability : Capability) (scope : Scope) where
  abbrev roles : List RoleAssignment
  roles = list_active_roles s actor_id

  reader_not_admin : (k : RoleKey) → is_global_readonly_key k ≡ true → is_global_admin_key k ≡ false
  reader_not_admin k e = ground arith

  not-admin : (k : RoleKey) → is_global_admin_key k ≡ false → k ≡ global_admin → ⊥
  not-admin k e same = ground (arith, e, (admin-key k).1 same)

  key-not : (k : RoleKey) → (k ≡ global_admin → ⊥) → is_global_admin_key k ≡ false
  key-not k other = elim (Bool-cases (is_global_admin_key k)) [
    | inl h ↦ absurd (other ((admin-key k).0 h))
    | inr h ↦ h
  ]

  -- `can_with_roles` on roles without Global Admin.
  with_roles-Granted :
      (rs : List RoleAssignment)
      → ((r : RoleAssignment) → Memᴰ r rs → Memᴰ r roles × (is_global_admin_key r.role_key ≡ false))
      → can_with_roles s actor_id capability scope rs ≡ true
      → Granted s actor_id capability scope
  unfolding can_with_roles
  with_roles-Granted rs sub e =
      elim (Bool-cases
        (is_read_only capability && any (λ r. is_global_readonly_key r.role_key) rs)) [
          | inl reads ↦
              let (r, m, k) =
                any-found (λ r. is_global_readonly_key r.role_key) rs (ground (arith, reads)) in
              as_reader ((read-capability capability).0 (ground (arith, reads))) r
                ((active-Holds s actor_id r).0 (sub r m).0) ((reader-key r.role_key).0 k)
          | inr other ↦
              let (r, m, k) =
                any-found (role_grants s actor_id capability scope) rs (ground (arith, other, e)) in
              by_role r ((active-Holds s actor_id r).0 (sub r m).0)
                (not-admin r.role_key (sub r m).1) ((covers s actor_id capability scope r).0 k)
        ]

  admin-there :
      (role : RoleAssignment)
      → Holds s actor_id role
      → role.role_key ≡ global_admin
      → any (λ r. is_global_admin_key r.role_key) roles ≡ true
  admin-there role held key =
      any-Mem (λ r. is_global_admin_key r.role_key) role roles
        ((active-Holds s actor_id role).1 held) ((admin-key role.role_key).1 key)

  Granted-with_roles :
      (rs : List RoleAssignment)
      → ((r : RoleAssignment) → Memᴰ r roles → is_global_admin_key r.role_key ≡ false → Memᴰ r rs)
      → Granted s actor_id capability scope
      → (is_global_admin s actor_id ≡ true) ⊎ (can_with_roles s actor_id capability scope rs ≡ true)
  unfolding can_with_roles is_global_admin
  Granted-with_roles rs sup (as_admin r held key has) =
      let there = admin-there r held key in
      let effective = (totp s actor_id).1 has in inl (ground (arith, there, effective))
  Granted-with_roles rs sup (as_reader reads r held key) =
      let k = (reader-key r.role_key).1 key in
      let h =
        any-Mem (λ r. is_global_readonly_key r.role_key) r rs
          (sup r ((active-Holds s actor_id r).1 held) (reader_not_admin r.role_key k)) k in
      let may_read = (read-capability capability).1 reads in inr (ground (arith, may_read, h))
  Granted-with_roles rs sup (by_role r held plain covered) =
      let h =
        any-Mem (role_grants s actor_id capability scope) r rs
          (sup r ((active-Holds s actor_id r).1 held) (key-not r.role_key plain))
          ((covers s actor_id capability scope r).1 covered) in
      inr (ground (arith, h))

  -- The roles that `can` looks at are the active roles other than Global Admin.
  no_admin :
      any (λ r. is_global_admin_key r.role_key) roles ≡ false
      → (r : RoleAssignment) → Memᴰ r roles
      → is_global_admin_key r.role_key ≡ false
  no_admin none_there r m = elim (Bool-cases (is_global_admin_key r.role_key)) [
    | inl h ↦
        let found = any-Mem (λ r. is_global_admin_key r.role_key) r roles m h in
        absurd (ground (arith, found, none_there))
    | inr h ↦ h
  ]

  can_sound : can s actor_id capability scope ≡ true → Granted s actor_id capability scope
  unfolding can is_global_admin
  can_sound e = elim (Bool-cases (any (λ r. is_global_admin_key r.role_key) roles)) [
    | inr plain ↦
        with_roles-Granted roles (λ r m. (m, no_admin plain r m)) (ground (arith, e, plain))
    | inl admin ↦ elim (Bool-cases (global_admin_role_is_effective s actor_id)) [
      | inl effective ↦
          let (r, m, k) = any-found (λ r. is_global_admin_key r.role_key) roles admin in
          as_admin r ((active-Holds s actor_id r).0 m) ((admin-key r.role_key).0 k)
            ((totp s actor_id).0 effective)
      | inr idle ↦
          with_roles-Granted (without_admin roles)
            (λ r m.
              let (n, k) = mem-select (λ r. not (is_global_admin_key r.role_key)) r roles m in
              (n, ground (arith, k)))
            (ground (arith, e, admin, idle))
    ]
  ]

  can_complete : Granted s actor_id capability scope → can s actor_id capability scope ≡ true
  unfolding can is_global_admin
  can_complete g = elim (Bool-cases (any (λ r. is_global_admin_key r.role_key) roles)) [
    | inr plain ↦ let h = Granted-with_roles roles (λ r m _. m) g in ground (arith, h, plain)
    | inl admin ↦
        let h =
          Granted-with_roles (without_admin roles)
            (λ r m k.
              select-mem (λ r. not (is_global_admin_key r.role_key)) r roles m (ground (arith, k)))
            g in
        ground (arith, h, admin)
  ]

  -- The authorization check of an actor, a capability and a scope answers True exactly if the actor holds,
  -- not revoked, Global Admin, and has TOTP if LOCAL with a credential; or holds Global Read-only and the
  -- capability is to read an Event's content; or holds a role other than Global Admin whose entry in the
  -- grant table is unconditional, or is SCOPE and the role's scope has the type and the id of the asked
  -- one, or is OWN_TEAM for a Manager who manages the Team that is asked for.
  pub can-Granted : (can s actor_id capability scope ≡ true) ↔ Granted s actor_id capability scope
  can-Granted = (can_sound, can_complete)
