-- ===== src/Request/Update/Roleless.antt =====
-- Decisions of a user whose token names no role.
use orchestronic_be.Base.{
  ℕ, suc, String, Option, none, some, List, [], ◌∷◌, ◌≡◌, refl, arith, inl, inr, Bool-cases,
}
use orchestronic_be.Schema.{Status, RequestRow}
use orchestronic_be.Effects.Data.{RequestKey, RequestPatch}
use orchestronic_be.Effects.Calls.{Call, History, messages}
use orchestronic_be.Effects.Monad.{Outcome-cases}
use orchestronic_be.Messaging.{queue_request, trigger_dag}
use orchestronic_be.Request.Dto.{BackendJwtPayload}
use orchestronic_be.Request.Update.{
  Outside, is_approved, set_up_project, provision, on_approval, update_request_info,
}
use orchestronic_be.Request.Update.Stages.{set_up_project-messages}
use orchestronic_be.Request.Update.Approval.{after_update, after_entry, after_repository}

-- How many DAG runs were asked for.
abbrev started_in : List Call → ℕ
started_in [] = 0
started_in (Call.dag_run d ∷ cs) = suc (started_in cs)
started_in (_ ∷ cs) = started_in cs

abbrev pub started : History → ℕ
started h = started_in (messages h)

module _ (out : Outside) (user : BackendJwtPayload) (id : String) (nobody : user.role ≡ none) where
  provision-started :
      (o : Option String) (h : History) → started (provision out user id o h).1 ≡ started h
  unfolding provision queue_request trigger_dag
  provision-started none h = refl
  provision-started (some r) h = elim (Outcome-cases (out.db.resources_unique_or_throw r h)) [
    | inl (info, q) ↦ ground arith
    | inr (x, q) ↦ ground arith
  ]

  on_approval-started :
      (updated : RequestRow) (h : History)
      → started (on_approval out user id updated h).1 ≡ started h
  unfolding on_approval
  on_approval-started updated h =
      elim (Outcome-cases (out.db.request_unique_or_throw (RequestKey.by_id id) h)) [
        | inr (x, q) ↦ ground arith
        | inl (entry, q) ↦
            let set_up = set_up_project out updated (after_entry out user id h) in
            ground (
              arith,
              set_up_project-messages out updated (after_entry out user id h),
              provision-started entry.resources_id (after_repository out user id updated set_up.1),
            )
      ]

  -- A decision of a user without a role starts no DAG, also when it approves.
  pub update_request_info-started :
      (status : Status) (h : History)
      → started (update_request_info out user id status h).1 ≡ started h
  unfolding update_request_info
  update_request_info-started status h =
      elim (Outcome-cases (out.db.update_request id (RequestPatch.set_status status) h)) [
        | inr (x, q) ↦ ground arith
        | inl (row, q) ↦ elim (Bool-cases (is_approved row.status)) [
          | inl approves ↦
              ground (arith, on_approval-started row (after_update out user id status h))
          | inr leaves ↦ ground arith
        ]
      ]
