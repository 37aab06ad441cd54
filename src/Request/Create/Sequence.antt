-- ===== src/Request/Create/Sequence.antt =====
-- Requests that are made one after the other.
use orchestronic_be.Base.{
  ℕ, ◌+◌, String, Option, none, some, List, [], ◌∷◌, ◌++◌, ◌≡◌, refl, ap, ◌∙◌, arith, zero, suc,
  length, inl, inr,
}
use orchestronic_be.Base.Text.{Text}
use orchestronic_be.Schema.{RequestRow}
use orchestronic_be.Effects.Data.{RequestCreate}
use orchestronic_be.Effects.Calls.{Call, Write, Query, History, effects}
use orchestronic_be.Effects.Monad.{Action, returned, Outcome-cases, pure, ◌>>=◌}
use orchestronic_be.Effects.Prisma.{Prisma}
use orchestronic_be.Request.Dto.{
  BackendJwtPayload, CreateRepositoryDto, CreateAzureResourceDto, CreateAzureRequestDto,
  CreateAwsResourceDto, CreateAwsRequestDto,
}
use orchestronic_be.Request.DisplayCode.{
  code_after, last_number, code_number, code_number-code_after,
}
use orchestronic_be.Request.Create.{
  check_request, repository_data, azure_config, aws_config, create_request_azure,
  create_request_aws,
}
use orchestronic_be.Request.Create.Checks.{effects-check_request}
use orchestronic_be.Request.Create.Writes.{
  Created, MadeAzure, MadeAws, MadeLinked, request_data, resources_data,
  create_request_azure-Created, create_request_aws-Created,
}

-- None of these calls makes or deletes a request row.
abbrev pub IsOther : Call → Type 0
IsOther (Call.write (Write.delete_request _)) = ⊥
IsOther (Call.write (Write.create_request _)) = ⊥
IsOther _ = Unit

abbrev pub AllOther : List Call → Type 0
AllOther [] = Unit
AllOther (c ∷ cs) = IsOther c × AllOther cs

-- Prisma's documented `create` and `findFirst` with the newest row first: a row that was made
-- carries the display code of its `data`, and it is the one that is found until another is made
-- or one is deleted.
pub record KeepsRequests (db : Prisma) : Type 0 where
  pub made :
      (d : RequestCreate) (h : History) (r : RequestRow)
      → db.create_request d h ≡ returned r
      → r.display_code ≡ d.display_code
  pub newest :
      (d : RequestCreate) (h h' : History) (r : RequestRow) (between : List Call)
      → db.create_request d h ≡ returned r
      → AllOther between
      → effects h' ≡ between ++ Call.write (Write.create_request d) ∷ effects h
      → db.request_latest h' ≡ returned (some r)

-- A request to create, of either kind, with its user.
pub data AnyCreate : Type 0 where
  for_azure : CreateAzureRequestDto → BackendJwtPayload → AnyCreate
  for_aws : CreateAwsRequestDto → BackendJwtPayload → AnyCreate

abbrev pub create_one : Prisma → AnyCreate → Action RequestRow
create_one db (for_azure dto user) = create_request_azure db dto user
create_one db (for_aws dto user) = create_request_aws db dto user

-- One after the other, up to the first that throws.
unfoldable pub create_all : Prisma → List AnyCreate → Action (List RequestRow)
create_all db [] = pure []
create_all db (x ∷ xs) = do r ← create_one db x; rs ← create_all db xs; pure (r ∷ rs)

abbrev pub display_codes : List RequestRow → List Text
display_codes [] = []
display_codes (r ∷ rs) = r.display_code ∷ display_codes rs

-- `count` codes, the first of them with the number after `n`: `code_after` adds one.
abbrev pub codes_from : ℕ → ℕ → List Text
codes_from n zero = []
codes_from n (suc count) = code_after (some n) ∷ codes_from (n + 1) count

module _ (db : Prisma) (keeps : KeepsRequests db) where
  -- What the first of two creates leaves behind: its request is the newest.
  record Left (h' : History) (r : RequestRow) : Type 0 where
    data_of : RequestCreate
    before : History
    request_made : db.create_request data_of before ≡ returned r
    written : effects h' ≡ Call.write (Write.create_request data_of) ∷ effects before

  MadeLinked-Left :
      (description : Option String) (repository : CreateRepositoryDto) (user : BackendJwtPayload)
      (resources_id : Option String) (h h' : History) (r : RequestRow)
      → MadeLinked db description repository user resources_id h h' r
      → Left h' r
  MadeLinked-Left description repository user resources_id h h' r l = record {
    data_of = request_data db description user resources_id l.repository_row.id l.last;
    before =
        Call.read Query.request_latest
        ∷ Call.write (Write.create_repository (repository_data repository resources_id))
        ∷ h;
    request_made = l.request_made;
    written = l.written;
  }

  -- A create whose making of the resources adds `between` to the effects of a history in which `r`
  -- is the newest request gives the code after that of `r`.
  next_code :
      (description : Option String) (repository : CreateRepositoryDto) (user : BackendJwtPayload)
      (resources_id : Option String) (h₁ h₂ h₃ : History) (r r' : RequestRow) (between : List Call)
      → Left h₁ r
      → AllOther between
      → effects h₂ ≡ between ++ effects h₁
      → MadeLinked db description repository user resources_id h₂ h₃ r'
      → r'.display_code ≡ code_after (code_number r.display_code)
  next_code description repository user resources_id h₁ h₂ h₃ r r' between left other e l =
      let repo = Call.write (Write.create_repository (repository_data repository resources_id)) in
      let found =
        keeps.newest left.data_of left.before (repo ∷ h₂) r (repo ∷ between) left.request_made
          (tt, other) (ap (λ x. repo ∷ x) (e ∙ ap (λ x. between ++ x) left.written)) in
      let latest : l.last ≡ some r = let known = l.last_found in cc in
      let coded =
        keeps.made (request_data db description user resources_id l.repository_row.id l.last)
          (Call.read Query.request_latest ∷ repo ∷ h₂) r' l.request_made in
      coded ∙ ap (λ o. code_after (last_number o)) latest

  -- The resources that a create makes before its repository.
  MadeAzure-other :
      (o : Option CreateAzureResourceDto) (h h' : History) (id : Option String)
      → MadeAzure db o h h' id
      → (between : List Call) × AllOther between × (effects h' ≡ between ++ effects h)
  MadeAzure-other none h h' id m = ([], tt, m.1)
  MadeAzure-other (some r) h h' id m = (
    Call.write
          (Write.create_resources (resources_data r.name r.cloud_provider r.region m.config_row.id))
        ∷ Call.write (Write.create_resource_config (azure_config r))
        ∷ [],
    (tt, (tt, tt)),
    m.written,
  )

  MadeAws-other :
      (o : Option CreateAwsResourceDto) (h h' : History) (id : Option String)
      → MadeAws db o h h' id
      → (between : List Call) × AllOther between × (effects h' ≡ between ++ effects h)
  MadeAws-other none h h' id m = elim m [ ]
  MadeAws-other (some r) h h' id m = (
    Call.write
          (Write.create_resources (resources_data r.name r.cloud_provider r.region m.config_row.id))
        ∷ Call.write (Write.create_resource_config (aws_config r))
        ∷ [],
    (tt, (tt, tt)),
    m.written,
  )

  -- A whole create after a history in which `r` is the newest request.
  module _ (Made : History → History → Option String → Type 0)
      (Made-other : (h h' : History) (id : Option String)
        → Made h h' id
        → (between : List Call) × AllOther between × (effects h' ≡ between ++ effects h)) where
    Created-next :
        (description : Option String) (repository : CreateRepositoryDto) (user : BackendJwtPayload)
        (h h' : History) (r r' : RequestRow)
        → Left h r
        → Created db Made description repository user h h' r'
        → (r'.display_code ≡ code_after (code_number r.display_code)) × Left h' r'
    Created-next description repository user h h' r r' left c =
        let checked = (check_request db repository user h).1 in
        let (between, other, added) =
          Made-other checked c.between c.resources_id c.resources_made in
        (
          next_code description repository user c.resources_id h c.between h' r r' between left
              other (added ∙ ap (λ x. between ++ x) (effects-check_request db repository user h))
              c.linked,
          MadeLinked-Left description repository user c.resources_id c.between h' r' c.linked,
        )

  create_one-next :
      (x : AnyCreate) (h : History) (r r' : RequestRow)
      → Left h r
      → (create_one db x h).0 ≡ returned r'
      → (r'.display_code ≡ code_after (code_number r.display_code)) × Left (create_one db x h).1 r'
  create_one-next (for_azure dto user) h r r' left e =
      Created-next (MadeAzure db dto.resources) (MadeAzure-other dto.resources) dto.description
        dto.repository user h (create_request_azure db dto user h).1 r r' left
        (create_request_azure-Created db dto user h r' e)
  create_one-next (for_aws dto user) h r r' left e =
      Created-next (MadeAws db dto.resources) (MadeAws-other dto.resources) dto.description
        dto.repository user h (create_request_aws db dto user h).1 r r' left
        (create_request_aws-Created db dto user h r' e)

  create_one-Left :
      (x : AnyCreate) (h : History) (r : RequestRow)
      → (create_one db x h).0 ≡ returned r
      → Left (create_one db x h).1 r
  create_one-Left (for_azure dto user) h r e =
      let c = create_request_azure-Created db dto user h r e in
      MadeLinked-Left dto.description dto.repository user c.resources_id c.between
        (create_request_azure db dto user h).1 r c.linked
  create_one-Left (for_aws dto user) h r e =
      let c = create_request_aws-Created db dto user h r e in
      MadeLinked-Left dto.description dto.repository user c.resources_id c.between
        (create_request_aws db dto user h).1 r c.linked

  create_all-Left :
      (xs : List AnyCreate) (n : ℕ) (h : History) (r : RequestRow) (rs : List RequestRow)
      → Left h r
      → r.display_code ≡ code_after (some n)
      → (create_all db xs h).0 ≡ returned rs
      → display_codes rs ≡ codes_from (n + 1) (length rs)
  unfolding create_all
  create_all-Left [] n h r [] left code e = refl
  create_all-Left [] n h r (_ ∷ _) left code e = absurd (ground arith)
  create_all-Left (x ∷ xs) n h r rs left code e =
      let h₁ = (create_one db x h).1 in
      elim (Outcome-cases (create_one db x h).0) [
        | inr (t, q) ↦ absurd (ground arith)
        | inl (r₁, q) ↦ elim (Outcome-cases (create_all db xs h₁).0) [
          | inr (t, q') ↦ absurd (ground arith)
          | inl (rs₁, q') ↦
              let (coded, left₁) = create_one-next x h r r₁ left q in
              let number : code_number r.display_code ≡ some (n + 1) =
                ap code_number code ∙ code_number-code_after n in
              let code₁ = coded ∙ ap code_after number in
              let rest = create_all-Left xs (n + 1) h₁ r₁ rs₁ left₁ code₁ q' in
              let same : rs ≡ r₁ ∷ rs₁ = ground arith in rw same (ground (arith, code₁, rest))
        ]
      ]

  -- If requests for Azure and AWS are created one right after the other and all of them return, and
  -- the first got the code R-(n + 1), then the codes of the others are R-(n + 2), R-(n + 3) and so on.
  pub codes_follow :
      (x : AnyCreate) (xs : List AnyCreate) (n : ℕ) (h : History) (r : RequestRow)
      (rs : List RequestRow)
      → (create_one db x h).0 ≡ returned r
      → r.display_code ≡ code_after (some n)
      → (create_all db xs (create_one db x h).1).0 ≡ returned rs
      → display_codes rs ≡ codes_from (n + 1) (length rs)
  codes_follow x xs n h r rs e code e' =
      create_all-Left xs n (create_one db x h).1 r rs (create_one-Left x h r e) code e'
