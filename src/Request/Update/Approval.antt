-- ===== src/Request/Update/Approval.antt =====
-- The decision on a request: what happens on every branch, and in which order.
use orchestronic_be.Base.{
  String, Option, none, some, List, [], ◌∷◌, ◌++◌, ◌≡◌, refl, arith, inl, inr, Bool, true, false,
}
use orchestronic_be.Schema.{Role, Status, RepositoryStatus, RequestRow, ResourcesRow}
use orchestronic_be.Effects.Data.{RequestKey, RequestPatch}
use orchestronic_be.Effects.Calls.{Call, Query, Write, Pattern, History, effects, messages}
use orchestronic_be.Effects.Monad.{Exception, Outcome, returned, thrown, Outcome-cases}
use orchestronic_be.Messaging.{queue_request, trigger_dag}
use orchestronic_be.Request.Dto.{BackendJwtPayload}
use orchestronic_be.Request.Update.{
  Outside, resources_dag, set_up_project, provision, on_approval, update_request_info,
}
use orchestronic_be.Request.Update.Stages.{SetUp, set_up_project-messages}

-- The DAG run that a role may trigger.
abbrev pub dag_of : Option Role → String → List Call
dag_of none dag = []
dag_of (some _) dag = Call.dag_run dag ∷ []

module _ (out : Outside) (user : BackendJwtPayload) (id : String) where
  -- The message and the DAG run for the resources of a request, as the provider of the row asks.
  abbrev pub Provisioned : Option String → History → History → Type 0
  Provisioned none h h' = effects h' ≡ effects h
  Provisioned (some resources_id) h h' =
      (info : ResourcesRow) × (out.db.resources_unique_or_throw resources_id h ≡ returned info)
      × (effects h'
          ≡ dag_of user.role (resources_dag info.cloud_provider)
            ++ Call.emit Pattern.request id ∷ effects h)

  provision-messages :
      (o : Option String) (h : History) (e : Exception)
      → (provision out user id o h).0 ≡ thrown e
      → messages (provision out user id o h).1 ≡ messages h
  unfolding provision queue_request trigger_dag
  provision-messages none h x e = refl
  provision-messages (some r) h x e = ground arith

  -- The histories after the update of the status, and after the read of the request.
  abbrev pub after_update : Status → History → History
  after_update status h = Call.write (Write.update_request id (RequestPatch.set_status status)) ∷ h

  abbrev pub after_entry : History → History
  after_entry h = Call.read (Query.request_unique (RequestKey.by_id id)) ∷ h

  abbrev pub after_repository : RequestRow → History → History
  after_repository updated h =
      Call.write (Write.update_repository updated.repository.id RepositoryStatus.created) ∷ h

  -- A whole approval, from the history after the update of the status.
  pub record Approved (updated : RequestRow) (h h' : History) : Type 0 where
    pub entry : RequestRow
    pub entry_found : out.db.request_unique_or_throw (RequestKey.by_id id) h ≡ returned entry
    pub between : History
    pub set_up : SetUp out updated (after_entry h) between
    pub provisioned : Provisioned entry.resources_id (after_repository updated between) h'

  module _ (updated entry r : RequestRow) (h : History)
      (found : out.db.request_unique_or_throw (RequestKey.by_id id) h ≡ returned entry) where
    abbrev set_up : Outcome (Unit {0}) × History
    set_up = set_up_project out updated (after_entry h)

    abbrev provisioning : Outcome (Unit {0}) × History
    provisioning = provision out user id entry.resources_id (after_repository updated set_up.1)

  on_approval-messages :
      (updated : RequestRow) (h : History) (e : Exception)
      → (on_approval out user id updated h).0 ≡ thrown e
      → messages (on_approval out user id updated h).1 ≡ messages h
  unfolding on_approval
  on_approval-messages updated h x e =
      elim (Outcome-cases (out.db.request_unique_or_throw (RequestKey.by_id id) h)) [
        | inr (x, q) ↦ ground arith
        | inl (entry, q) ↦ ground (
          arith,
          set_up_project-messages out updated (after_entry h),
          provision-messages entry.resources_id
              (after_repository updated (set_up_project out updated (after_entry h)).1) x,
        )
      ]

  -- A decision that throws has sent no message to a queue and triggered no DAG, whichever step
  -- failed.
  pub update_request_info_thrown :
      (status : Status) (h : History) (e : Exception)
      → (update_request_info out user id status h).0 ≡ thrown e
      → messages (update_request_info out user id status h).1 ≡ messages h
  unfolding update_request_info
  update_request_info_thrown status h x e =
      elim (Outcome-cases (out.db.update_request id (RequestPatch.set_status status) h)) [
        | inr (x', q) ↦ ground arith
        | inl (updated, q) ↦ ground (arith, on_approval-messages updated (after_update status h) x)
      ]

  -- What follows the update of the status, by whether the stored row is approved.
  abbrev pub Decided : Bool → RequestRow → History → History → Type 0
  Decided true r h h' = Approved r h h'
  Decided false r h h' = h' ≡ h
