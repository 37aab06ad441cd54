-- ===== src/Infrastructure/Destroy.antt =====
-- What a call to destroy resources sends.
use orchestronic_be.Base.{
  String, Option, none, some, List, [], ◌∷◌, ◌++◌, ◌≡◌, ◌⊎◌, inl, inr, refl, arith, Option-cases,
  concat,
}
use orchestronic_be.Schema.{Role, CloudProvider, ResourcesRow, RequestRow}
use orchestronic_be.Effects.Calls.{Call, Query, Pattern, History, effects}
use orchestronic_be.Effects.Monad.{Exception, returned, thrown, Outcome-cases, AxiosReply-cases}
use orchestronic_be.Session.{
  Session, authenticate, IsVerified, authenticate-IsVerified, invalid_token, nonempty_text,
}
use orchestronic_be.Messaging.{destroy_request, trigger_dag}
use orchestronic_be.Request.Dto.{BackendJwtPayload}
use orchestronic_be.Infrastructure.{
  InfraOutside, destroy_dag, destroy_with, infrastruture_destroy, azure_destroy,
}

-- The DAG run that is asked for: that of the provider, and none without a role.
abbrev pub runs_of : Option Role → CloudProvider → List Call
runs_of none p = []
runs_of (some r) CloudProvider.aws = Call.dag_run "AWS_Destroy" ∷ []
runs_of (some r) CloudProvider.azure = Call.dag_run "AZURE_Destroy" ∷ []

module _ (out : InfraOutside) where
  trigger_effects :
      (role : Option Role) (p : CloudProvider) (h : History)
      → effects (trigger_dag out.airflow role (destroy_dag p) h).1 ≡ runs_of role p ++ effects h
  unfolding trigger_dag
  trigger_effects none p h = refl
  trigger_effects (some r) CloudProvider.aws h =
      elim (AxiosReply-cases (out.airflow.dag_run "AWS_Destroy" h)) [
        | inl (d, q) ↦ ground arith
        | inr (c, q) ↦ ground arith
      ]
  trigger_effects (some r) CloudProvider.azure h =
      elim (AxiosReply-cases (out.airflow.dag_run "AZURE_Destroy" h)) [
        | inl (d, q) ↦ ground arith
        | inr (c, q) ↦ ground arith
      ]

  destroy_text :
      (user : BackendJwtPayload) (id : String) (p : CloudProvider) (h : History)
      → (text : String) × ((destroy_with out user id p h).0 ≡ returned text)
  unfolding destroy_with destroy_request
  destroy_text user id p h = (_, refl)

  destroy_effects :
      (user : BackendJwtPayload) (id : String) (p : CloudProvider) (h : History)
      → effects (destroy_with out user id p h).1
        ≡ runs_of user.role p ++ Call.emit Pattern.destroy id ∷ effects h
  unfolding destroy_with destroy_request
  destroy_effects user id p h = trigger_effects user.role p (Call.emit Pattern.destroy id ∷ h)

module _ (out : InfraOutside) (s : Session) (id : String) (h : History) where
  abbrev no_resources : Exception
  no_resources = Exception.error (concat "No resourcesId found for request " id)

  abbrev no_provider : String → Exception
  no_provider rid = Exception.error (concat "No cloudProvider found for resourcesId " rid)

  abbrev after_request : History
  after_request = Call.read (Query.request_first id) ∷ h

  -- The token was verified, the request names resources whose row has a provider, and the message was queued
  -- before the run of the provider's DAG was asked for.
  pub record Destroyed : Type 0 where
    pub user : BackendJwtPayload
    pub verified : IsVerified s user
    pub request : RequestRow
    pub resources_id : String
    pub resources : ResourcesRow
    pub found : out.request_first id h ≡ returned (some request)
    pub named : nonempty_text request.resources_id ≡ some resources_id
    pub row_found : out.resources_first resources_id after_request ≡ returned (some resources)
    pub sent :
        effects (azure_destroy out s id h).1
        ≡ runs_of user.role resources.cloud_provider ++ Call.emit Pattern.destroy id ∷ effects h

  -- A call to destroy the resources of a request either throws and changes nothing outside, or
  -- returns, whatever Airflow answers, after it queued the destroy message and, if the user has a
  -- role, asked for one run of the destroy DAG of the provider in the row of its resources.
  pub azure_destroy_cases :
      (((e : Exception) × ((azure_destroy out s id h).0 ≡ thrown e))
        × (effects (azure_destroy out s id h).1 ≡ effects h))
      ⊎ (((text : String) × ((azure_destroy out s id h).0 ≡ returned text)) × Destroyed)
  unfolding azure_destroy infrastruture_destroy
  azure_destroy_cases = elim (Outcome-cases (authenticate s invalid_token)) [
    | inr (e, q) ↦ inl ((e, ground arith), ground arith)
    | inl (user, q) ↦ elim (Outcome-cases (out.request_first id h)) [
      | inr (e, f) ↦ inl ((e, ground arith), ground arith)
      | inl (none, f) ↦ inl ((no_resources, ground arith), ground arith)
      | inl (some request, f) ↦ elim (Option-cases (nonempty_text request.resources_id)) [
        | inl missing ↦ inl ((no_resources, ground arith), ground arith)
        | inr (rid, has) ↦
            let g : History = Call.read (Query.resources_unique rid) ∷ after_request in
            elim (Outcome-cases (out.resources_first rid after_request)) [
              | inr (e, r) ↦ inl ((e, ground arith), ground arith)
              | inl (none, r) ↦ inl ((no_provider rid, ground arith), ground arith)
              | inl (some row, r) ↦
                  let (text, t) = destroy_text out user id row.cloud_provider g in
                  let fx = destroy_effects out user id row.cloud_provider g in
                  inr (
                    (text, ground arith),
                    record {
                      user = user;
                      verified = authenticate-IsVerified s invalid_token user q;
                      request = request;
                      resources_id = rid;
                      resources = row;
                      found = f;
                      named = has;
                      row_found = r;
                      sent = ground arith;
                    },
                  )
            ]
      ]
    ]
  ]
