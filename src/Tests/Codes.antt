-- ===== src/Tests/Codes.antt =====
-- Requests in a row, against a database that keeps them.
use orchestronic_be.Base.{
  Option, none, some, List, [], ◌∷◌, ◌++◌, ◌≡◌, refl, sym, ap, ◌∙◌, arith, or_else,
}
use orchestronic_be.Base.Text.{Text, codes, split}
use orchestronic_be.Base.Decimal.{print, parse_int}
use orchestronic_be.Schema.{Role, Status, RequestRow}
use orchestronic_be.Effects.Data.{RequestCreate}
use orchestronic_be.Effects.Calls.{Call, Write, effects}
use orchestronic_be.Effects.Monad.{returned}
use orchestronic_be.Effects.Prisma.{Prisma}
use orchestronic_be.Request.DisplayCode.{code_number, code_after}
use orchestronic_be.Request.Create.{
  check_request, create_azure_resources, create_aws_resources, create_linked, create_request_azure,
  create_request_aws,
}
use orchestronic_be.Request.Create.Sequence.{
  IsOther, AllOther, KeepsRequests, AnyCreate, for_azure, for_aws, create_one, create_all,
  display_codes, codes_from, codes_follow,
}
use orchestronic_be.Tests.World.{request_row, db, caller, new_repository}

abbrev row_of : RequestCreate → RequestRow
row_of d = request_row (or_else d.owner_id "alice") d.display_code Status.pending

abbrev after_call : Option RequestRow → Call → Option RequestRow
after_call r (Call.write (Write.create_request d)) = some (row_of d)
after_call r (Call.write (Write.delete_request id)) = none
after_call r c = r

abbrev newest_in : List Call → Option RequestRow
newest_in [] = none
newest_in (c ∷ cs) = after_call (newest_in cs) c

abbrev keeping_db : Prisma
keeping_db = record db {
  create_request = λ d h. returned (row_of d);
  request_latest = λ h. returned (newest_in (effects h));
}

other_keeps : (c : Call) (r : Option RequestRow) → IsOther c → after_call r c ≡ r
other_keeps c r o = ground arith

newest_in-append :
    (between cs : List Call) → AllOther between → newest_in (between ++ cs) ≡ newest_in cs
newest_in-append [] cs o = refl
newest_in-append (c ∷ between) cs o =
    other_keeps c (newest_in (between ++ cs)) o.0 ∙ newest_in-append between cs o.1

keeping_db-KeepsRequests : KeepsRequests keeping_db
keeping_db-KeepsRequests = record {
  made = λ d h r e. let same : row_of d ≡ r = cc in ap (λ x. x.display_code) (sym same);
  newest = λ d h h' r between e o w.
      let same : row_of d ≡ r = cc in
      ap (λ x. returned (newest_in x)) w
      ∙ ap returned (newest_in-append between (Call.write (Write.create_request d) ∷ effects h) o)
      ∙ ap (λ x. returned (some x)) same;
}

abbrev azure_one : AnyCreate
azure_one =
    for_azure (record { description = none; repository = new_repository; resources = none })
      (caller Role.developer)

abbrev aws_one : AnyCreate
aws_one =
    for_aws
      (record {
        description = none;
        repository = new_repository;
        resources = some (record {
          name = "group";
          cloud_provider = "AWS";
          region = "east";
          resource_config = record { vms = none; dbs = none; sts = none };
        });
      })
      (caller Role.it)

abbrev row : Text → RequestRow
row code = request_row "alice" code Status.pending

first_made : (create_one keeping_db azure_one []).0 ≡ returned (row (codes "R-1"))
unfolding create_request_azure check_request create_azure_resources create_linked code_after
    code_number split parse_int print
first_made = refl

first_code : codes "R-1" ≡ code_after (some 0)
unfolding code_after print
first_code = refl

others_made :
    (create_all keeping_db (aws_one ∷ azure_one ∷ []) (create_one keeping_db azure_one []).1).0
    ≡ returned (row (codes "R-2") ∷ row (codes "R-3") ∷ [])
unfolding create_all create_request_azure create_request_aws check_request create_azure_resources
    create_aws_resources create_linked code_after code_number split parse_int print
others_made = refl

codes_follow_example : display_codes (row (codes "R-2") ∷ row (codes "R-3") ∷ []) ≡ codes_from 1 2
codes_follow_example =
    codes_follow keeping_db keeping_db-KeepsRequests azure_one (aws_one ∷ azure_one ∷ []) 0 []
      (row (codes "R-1")) (row (codes "R-2") ∷ row (codes "R-3") ∷ []) first_made first_code
      others_made
