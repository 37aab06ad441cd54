-- ===== src/Tests/Decided.antt =====
-- Two approvals of the same request.
use orchestronic_be.Base.{◌+◌, List, [], ◌∷◌, ◌≡◌, refl, sym, ap}
use orchestronic_be.Base.Text.{codes}
use orchestronic_be.Schema.{Role, Status}
use orchestronic_be.Effects.Monad.{for_each}
use orchestronic_be.Gitlab.{
  create_project_for_a_user, get_user_by_username, get_project_by_name, invite_user_to_project,
}
use orchestronic_be.Messaging.{queue_request, trigger_dag}
use orchestronic_be.Request.Update.{
  update_request_info, on_approval, set_up_project, provision, invite, add_members,
}
use orchestronic_be.Request.Update.Decisions.{
  Decision, decide_all, approvals, queued, IsLinked, StoresStatus, decide_all-queued,
}
use orchestronic_be.Tests.World.{out, caller, request_row}

abbrev twice : List Decision
twice =
    record { user = caller Role.admin; status = Status.approved }
    ∷ record { user = caller Role.developer; status = Status.approved }
    ∷ []

out-IsLinked : IsLinked out "req" "res"
out-IsLinked g row e =
    let same : request_row "alice" (codes "R-4") Status.pending ≡ row = cc in
    sym (ap (λ r. r.resources_id) same)

out-StoresStatus : StoresStatus out "req"
out-StoresStatus status g row e =
    let same : request_row "alice" (codes "R-4") status ≡ row = cc in sym (ap (λ r. r.status) same)

-- The worker is asked twice.
decide_all-queued_example :
    queued "req" (decide_all out "req" twice []).1
    ≡ approvals twice (decide_all out "req" twice []).0 + queued "req" []
decide_all-queued_example = decide_all-queued out "req" "res" out-IsLinked out-StoresStatus twice []

asked_twice : queued "req" (decide_all out "req" twice []).1 ≡ 2
unfolding decide_all update_request_info on_approval set_up_project create_project_for_a_user
    get_user_by_username add_members get_project_by_name for_each invite invite_user_to_project
    provision queue_request trigger_dag
asked_twice = refl
