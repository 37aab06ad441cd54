-- ===== src/Tests/Requests.antt =====
-- Requests that are made, refused, approved and listed.
use orchestronic_be.Base.{none, some, [], ◌∷◌, ◌≡◌, ◌↔◌, refl}
use orchestronic_be.Base.Text.{codes, split}
use orchestronic_be.Base.Decimal.{print, parse_int}
use orchestronic_be.Schema.{Role, Status, RequestRow}
use orchestronic_be.Effects.Calls.{effects, messages}
use orchestronic_be.Effects.Monad.{Exception, returned, thrown}
use orchestronic_be.Effects.Prisma.{Prisma}
use orchestronic_be.Gitlab.{create_project_for_a_user, get_user_by_username}
use orchestronic_be.Request.Dto.{CreateAzureRequestDto, CreateAwsRequestDto}
use orchestronic_be.Request.DisplayCode.{code_number, code_after, code_number-code_after}
use orchestronic_be.Request.Create.{
  check_request, create_azure_resources, create_aws_resources, create_linked, create_request_azure,
  create_request_aws,
}
use orchestronic_be.Request.Create.Checks.{
  IsAdmissible, Refusal, name_taken, check_request_iff, check_request-thrown_iff,
  create_request_azure_refused,
}
use orchestronic_be.Request.Create.Writes.{
  Created, MadeAzure, MadeAws, create_request_azure-Created, create_request_aws-Created,
}
use orchestronic_be.Request.Update.{Outside, update_request_info, on_approval, set_up_project}
use orchestronic_be.Request.Update.Approval.{update_request_info_thrown}
use orchestronic_be.Request.Query.{find_all, find_with_request_display_code}
use orchestronic_be.Request.Query.Visibility.{find_with_request_display_code-own}
use orchestronic_be.Tests.World.{
  alice, shop, request_row, db, db-HonoursWhere, out, caller, new_repository,
}

code_number-code_after_example : code_number (code_after (some 41)) ≡ some 42
code_number-code_after_example = code_number-code_after 41

check_request_iff_example :
    ((check_request db new_repository (caller Role.developer) []).0 ≡ returned tt)
    ↔ IsAdmissible db new_repository (caller Role.developer) []
check_request_iff_example = check_request_iff db new_repository (caller Role.developer) []

-- A database in which the name is taken.
abbrev full_db : Prisma
full_db = record db { repository_unique = λ k h. returned (some shop) }

abbrev taken : Exception
taken = Exception.conflict "Repository name already exists"

refusal : Refusal full_db new_repository (caller Role.developer) [] taken
refusal = name_taken alice shop refl refl refl

check_request-thrown_iff_example :
    ((check_request full_db new_repository (caller Role.developer) []).0 ≡ thrown taken)
    ↔ Refusal full_db new_repository (caller Role.developer) [] taken
check_request-thrown_iff_example =
    check_request-thrown_iff full_db new_repository (caller Role.developer) [] taken

abbrev azure_request : CreateAzureRequestDto
azure_request = record {
  description = some "first";
  repository = new_repository;
  resources = some (record {
    name = "group";
    cloud_provider = "AZURE";
    region = "east";
    resource_config = record { vms = none; dbs = some []; sts = none };
  });
}

abbrev aws_request : CreateAwsRequestDto
aws_request = record {
  description = none;
  repository = new_repository;
  resources = some (record {
    name = "group";
    cloud_provider = "AWS";
    region = "east";
    resource_config = record { vms = none; dbs = none; sts = some [] };
  });
}

create_request_azure_refused_example :
    let run = create_request_azure full_db azure_request (caller Role.developer) [] in
    (run.0 ≡ thrown taken) × (effects run.1 ≡ effects [])
create_request_azure_refused_example =
    create_request_azure_refused full_db azure_request (caller Role.developer) [] taken refusal

abbrev made : RequestRow
made = request_row "alice" (codes "R-5") Status.pending

azure_made : (create_request_azure db azure_request (caller Role.developer) []).0 ≡ returned made
unfolding create_request_azure check_request create_azure_resources create_linked code_after
    code_number split parse_int print
azure_made = refl

aws_made : (create_request_aws db aws_request (caller Role.developer) []).0 ≡ returned made
unfolding create_request_aws check_request create_aws_resources create_linked code_after code_number
    split parse_int print
aws_made = refl

create_request_azure-Created_example :
    Created db
      (MadeAzure db azure_request.resources)
      (some "first")
      new_repository
      (caller Role.developer)
      []
      (create_request_azure db azure_request (caller Role.developer) []).1
      made
create_request_azure-Created_example =
    create_request_azure-Created db azure_request (caller Role.developer) [] made azure_made

create_request_aws-Created_example :
    Created db
      (MadeAws db aws_request.resources)
      none
      new_repository
      (caller Role.developer)
      []
      (create_request_aws db aws_request (caller Role.developer) []).1
      made
create_request_aws-Created_example =
    create_request_aws-Created db aws_request (caller Role.developer) [] made aws_made

-- Without a latest GitLab answer the approval stops.
abbrev dark : Exception
dark = Exception.client_error "ECONNREFUSED"

abbrev dark_out : Outside
dark_out = record out { gitlab = record out.gitlab { get_user = λ name h. thrown dark } }

approval_thrown :
    (update_request_info dark_out (caller Role.admin) "req" Status.approved []).0 ≡ thrown dark
unfolding update_request_info on_approval set_up_project create_project_for_a_user
    get_user_by_username
approval_thrown = refl

update_request_info_thrown_example :
    messages (update_request_info dark_out (caller Role.admin) "req" Status.approved []).1
    ≡ messages []
update_request_info_thrown_example =
    update_request_info_thrown dark_out (caller Role.admin) "req" Status.approved [] dark
      approval_thrown

abbrev approved_row : RequestRow
approved_row = request_row "alice" (codes "R-4") Status.approved

listed :
    (find_all db (caller Role.developer) []).0
    ≡ returned (request_row "alice" (codes "R-4") Status.pending ∷ [])
unfolding find_all
listed = refl

found :
    (find_with_request_display_code db (codes "R-9") (caller Role.developer) []).0
    ≡ returned (request_row "alice" (codes "R-9") Status.pending)
unfolding find_with_request_display_code
found = refl

find_with_request_display_code-own_example :
    let r = request_row "alice" (codes "R-9") Status.pending in
    (r.display_code ≡ codes "R-9") × (r.owner_id ≡ "alice")
find_with_request_display_code-own_example =
    find_with_request_display_code-own db db-HonoursWhere (caller Role.developer) "alice" refl refl
      (codes "R-9") [] (request_row "alice" (codes "R-9") Status.pending) found
