-- ===== src/Request/Update/Decisions.antt =====
-- One decision after another on the same request, by whichever users: `updateRequestInfo` called
-- again and again, where a call that throws is not the last.
use orchestronic_be.Base.{
  ℕ, suc, ◌+◌, String, some, List, [], ◌∷◌, ◌≡◌, refl, arith, inl, inr, Bool-cases, Option-cases,
  if◌then◌else◌, ◌===◌,
}
use text.Mathlib.TextEquality.{eq_iff}
use orchestronic_be.Schema.{Status, RequestRow}
use orchestronic_be.Effects.Data.{RequestKey, RequestPatch}
use orchestronic_be.Effects.Calls.{Call, Pattern, History, messages}
use orchestronic_be.Effects.Monad.{Outcome, returned, thrown, Outcome-cases}
use orchestronic_be.Messaging.{queue_request, trigger_dag}
use orchestronic_be.Request.Dto.{BackendJwtPayload}
use orchestronic_be.Request.Update.{
  Outside, is_approved, set_up_project, provision, on_approval, update_request_info,
}
use orchestronic_be.Request.Update.Stages.{set_up_project-messages}
use orchestronic_be.Request.Update.Approval.{
  after_update, after_entry, after_repository, update_request_info_thrown,
}

-- How many of the messages ask the worker to create the resources of the request.
abbrev queued_in : String → List Call → ℕ
queued_in id [] = 0
queued_in id (Call.emit Pattern.request j ∷ cs) = (if j === id then 1 else 0) + queued_in id cs
queued_in id (_ ∷ cs) = queued_in id cs

abbrev pub queued : String → History → ℕ
queued id h = queued_in id (messages h)

pub record Decision : Type 0 where
  pub user : BackendJwtPayload
  pub status : Status

-- The decisions that approved and returned.
abbrev pub approval : Status → Outcome RequestRow → ℕ
approval status (returned r) = if is_approved status then 1 else 0
approval status (thrown e) = 0

unfoldable pub approvals : List Decision → List (Outcome RequestRow) → ℕ
approvals (d ∷ ds) (o ∷ os) = approval d.status o + approvals ds os
approvals _ _ = 0

module _ (out : Outside) (id : String) where
  unfoldable pub decide_all : List Decision → History → List (Outcome RequestRow) × History
  decide_all [] h = ([], h)
  decide_all (d ∷ ds) h =
      let (o, h') = update_request_info out d.user id d.status h in
      let (os, h'') = decide_all ds h' in (o ∷ os, h'')

  -- The row of the request names these resources, whenever it is read: nothing unlinks them.
  abbrev pub IsLinked : String → Type 0
  IsLinked resources =
      (g : History) (row : RequestRow)
      → out.db.request_unique_or_throw (RequestKey.by_id id) g ≡ returned row
      → row.resources_id ≡ some resources

  -- Prisma's documented `update`, which gives back the row with the new status.
  abbrev pub StoresStatus : Type 0
  StoresStatus =
      (status : Status) (g : History) (row : RequestRow)
      → out.db.update_request id (RequestPatch.set_status status) g ≡ returned row
      → row.status ≡ status

  provision-queued :
      (user : BackendJwtPayload) (resources : String) (h : History)
      → (provision out user id (some resources) h).0 ≡ returned tt
      → queued id (provision out user id (some resources) h).1 ≡ suc (queued id h)
  unfolding provision queue_request trigger_dag
  provision-queued user resources h e =
      let same = (eq_iff id id).1 refl in
      elim (Outcome-cases (out.db.resources_unique_or_throw resources h)) [
        | inr (x, q) ↦ absurd (ground arith)
        | inl (info, q) ↦ elim (Option-cases user.role) [
          | inl nobody ↦ ground arith
          | inr (role, known) ↦ ground arith
        ]
      ]

  on_approval-queued :
      (user : BackendJwtPayload) (updated r : RequestRow) (resources : String) (h : History)
      → IsLinked resources
      → (on_approval out user id updated h).0 ≡ returned r
      → queued id (on_approval out user id updated h).1 ≡ suc (queued id h)
  unfolding on_approval
  on_approval-queued user updated r resources h linked e =
      elim (Outcome-cases (out.db.request_unique_or_throw (RequestKey.by_id id) h)) [
        | inr (x, q) ↦ absurd (ground arith)
        | inl (entry, q) ↦
            let same = linked h entry q in
            let kept = set_up_project-messages out updated (after_entry out user id h) in
            elim (Outcome-cases (set_up_project out updated (after_entry out user id h)).0) [
              | inr (x, q') ↦ absurd (ground arith)
              | inl (t, q') ↦
                  let g =
                    after_repository out user id updated
                      (set_up_project out updated (after_entry out user id h)).1 in
                  ground (arith, provision-queued user resources g)
            ]
      ]

  module _ (resources : String) (linked : IsLinked resources) (stores : StoresStatus) where
    update_request_info-queued :
        (user : BackendJwtPayload) (status : Status) (h : History)
        → queued id (update_request_info out user id status h).1
          ≡ approval status (update_request_info out user id status h).0 + queued id h
    unfolding update_request_info
    update_request_info-queued user status h =
        elim (Outcome-cases (update_request_info out user id status h).0) [
          | inr (x, e) ↦ ground (arith, update_request_info_thrown out user id status h x e)
          | inl (r, e) ↦
              elim (Outcome-cases (out.db.update_request id (RequestPatch.set_status status) h)) [
                | inr (x, q) ↦ absurd (ground arith)
                | inl (row, q) ↦
                    let asked = stores status h row q in
                    elim (Bool-cases (is_approved status)) [
                      | inl yes_it_is ↦ ground (
                        arith,
                        on_approval-queued user row r resources (after_update out user id status h)
                            linked,
                      )
                      | inr other ↦ ground arith
                    ]
              ]
        ]

    -- When users decide one after another on a request with resources, the worker is asked for
    -- its resources exactly once for each decision that approved and returned: a decision that
    -- threw asks for nothing, and an approval of a request that is approved already asks again.
    pub decide_all-queued :
        (ds : List Decision) (h : History)
        → queued id (decide_all ds h).1 ≡ approvals ds (decide_all ds h).0 + queued id h
    unfolding decide_all approvals
    decide_all-queued [] h = omega arith
    decide_all-queued (d ∷ ds) h =
        let one = update_request_info-queued d.user d.status h in
        let rest = decide_all-queued ds (update_request_info out d.user id d.status h).1 in
        omega (arith, one, rest)
