-- ===== src/Policy/Guard.antt =====
-- Who may change a policy.
use orchestronic_be.Base.{
  String, Option, some, ◌∷◌, ◌≡◌, ◌⊎◌, inl, inr, refl, arith, true, Bool-cases,
}
use orchestronic_be.Schema.{Role}
use orchestronic_be.Effects.Data.{PolicyTable}
use orchestronic_be.Effects.Calls.{Call, Write, History}
use orchestronic_be.Effects.Monad.{Exception, Action, throw, thrown, Outcome-cases}
use orchestronic_be.Session.{
  Session, authenticate, IsVerified, authenticate-IsVerified, invalid_token,
}
use orchestronic_be.Request.Dto.{BackendJwtPayload}
use orchestronic_be.Policy.{
  PolicyTables, PolicyAnswer, PolicyChange, azure_create_vm, azure_update_vm, aws_update_vm,
  azure_create_db, azure_create_st, azure_update_db, azure_update_st, aws_update_db, aws_update_st,
  machine_data, storage_data, is_admin, only_admins, create_row, update_rows, method_route,
  method_of, change_policy_route, azure_create_policy_vm, azure_create_policy_db,
  azure_create_policy_st, azure_update_policy_vm, azure_update_policy_db, azure_update_policy_st,
  aws_update_policy_vm, aws_update_policy_db, aws_update_policy_st,
}

-- The statement that a route asks the database for.
abbrev pub write_of : PolicyChange → Write
write_of (azure_create_vm d) = Write.create_policy PolicyTable.azure_vm (machine_data d)
write_of (azure_create_db d) = Write.create_policy PolicyTable.azure_database (storage_data d)
write_of (azure_create_st d) = Write.create_policy PolicyTable.azure_storage (storage_data d)
write_of (azure_update_vm d) = Write.update_policy PolicyTable.azure_vm (machine_data d)
write_of (azure_update_db d) = Write.update_policy PolicyTable.azure_database (storage_data d)
write_of (azure_update_st d) = Write.update_policy PolicyTable.azure_storage (storage_data d)
write_of (aws_update_vm d) = Write.update_policy PolicyTable.aws_vm (machine_data d)
write_of (aws_update_db d) = Write.update_policy PolicyTable.aws_database (storage_data d)
write_of (aws_update_st d) = Write.update_policy PolicyTable.aws_storage (storage_data d)

-- The words of the refusal.
abbrev what_of : PolicyChange → String
what_of (azure_create_vm d) = "create VM policies"
what_of (azure_create_db d) = "create DB policies"
what_of (azure_create_st d) = "create ST policies"
what_of (azure_update_vm d) = "update VM policies"
what_of (azure_update_db d) = "update DB policies"
what_of (azure_update_st d) = "update ST policies"
what_of (aws_update_vm d) = "update VM policies"
what_of (aws_update_db d) = "update DB policies"
what_of (aws_update_st d) = "update ST policies"

module _ (db : PolicyTables) where
  -- The one call that a statement makes.
  abbrev statement : Write → Action PolicyAnswer
  statement (Write.create_policy t d) = create_row db t d
  statement (Write.update_policy t d) = update_rows db t d
  statement w = throw (Exception.error "")

  method_of-eq :
      (change : PolicyChange) (user : BackendJwtPayload)
      → method_of db change user ≡ only_admins user (what_of change) (statement (write_of change))
  unfolding azure_create_policy_vm azure_create_policy_db azure_create_policy_st
      azure_update_policy_vm azure_update_policy_db azure_update_policy_st aws_update_policy_vm
      aws_update_policy_db aws_update_policy_st
  method_of-eq (azure_create_vm d) user = refl
  method_of-eq (azure_create_db d) user = refl
  method_of-eq (azure_create_st d) user = refl
  method_of-eq (azure_update_vm d) user = refl
  method_of-eq (azure_update_db d) user = refl
  method_of-eq (azure_update_st d) user = refl
  method_of-eq (aws_update_vm d) user = refl
  method_of-eq (aws_update_db d) user = refl
  method_of-eq (aws_update_st d) user = refl

  one_statement :
      (change : PolicyChange) (h : History)
      → (statement (write_of change) h).1 ≡ Call.write (write_of change) ∷ h
  one_statement (azure_create_vm d) h = ground arith
  one_statement (azure_create_db d) h = ground arith
  one_statement (azure_create_st d) h = ground arith
  one_statement (azure_update_vm d) h = ground arith
  one_statement (azure_update_db d) h = ground arith
  one_statement (azure_update_st d) h = ground arith
  one_statement (aws_update_vm d) h = ground arith
  one_statement (aws_update_db d) h = ground arith
  one_statement (aws_update_st d) h = ground arith

module _ (db : PolicyTables) (s : Session) (change : PolicyChange) (h : History) where
  -- The caller holds a verified token with the role Admin, and the route made its one statement.
  pub record ChangedByAdmin : Type 0 where
    pub user : BackendJwtPayload
    pub verified : IsVerified s user
    pub admin : user.role ≡ some Role.admin
    pub one_write : (change_policy_route db s change h).1 ≡ Call.write (write_of change) ∷ h

  -- The route threw and made no call.
  pub record RefusedChange : Type 0 where
    pub reason : Exception
    pub no_call : change_policy_route db s change h ≡ (thrown reason, h)

  is_admin-role : (r : Option Role) → is_admin r ≡ true → r ≡ some Role.admin
  is_admin-role r e = ground arith

  -- Each of the nine routes that change a policy either throws and makes no call, or is called with
  -- a verified token whose role is Admin and makes exactly the one statement of its body.
  pub change_policy_cases : RefusedChange ⊎ ChangedByAdmin
  unfolding method_route
  change_policy_cases = elim (Outcome-cases (authenticate s invalid_token)) [
    | inr (e, q) ↦ inl (record { reason = e; no_call = ground arith })
    | inl (user, q) ↦
        let same = method_of-eq db change user in
        elim (Bool-cases (is_admin user.role)) [
          | inl admin ↦
              let done = one_statement db change h in
              inr (record {
                user = user;
                verified = authenticate-IsVerified s invalid_token user q;
                admin = is_admin-role user.role admin;
                one_write = ground arith;
              })
          | inr other ↦
              inl
                (record { reason = Exception.unauthorized "Invalid token"; no_call = ground arith })
        ]
  ]
