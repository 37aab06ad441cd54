-- ===== src/Cloudflare.antt =====
-- src/cloudflare/cloudflare.service.ts: DNS records of type A. The Cloudflare API is an argument.
pub mod Upsert
use orchestronic_be.Base.{
  ℕ, String, Option, none, some, Bool, true, false, not, ◌||◌, ◌&&◌, or_else, if◌then◌else◌, [],
  ◌∷◌, ◌++◌, leb, ◌+◌,
}
use orchestronic_be.Base.Text.{Text, codes, trim, text_eq}
use orchestronic_be.Effects.Calls.{Call, CloudflareCall, RecordBody, History}
use orchestronic_be.Effects.Monad.{Outcome, Action, pure, perform, ◌>>=◌, ◌>>◌}

pub record CfDnsRecord : Type 0 where
  pub id : String
  pub content : Text
  pub proxied : Option Bool

-- The first record that a search finds, and the records that the writes give back.
pub record CloudflareApi : Type 0 where
  pub search_record : Text → History → Outcome (Option CfDnsRecord)
  pub post_record : RecordBody → History → Outcome CfDnsRecord
  pub put_record : String → RecordBody → History → Outcome CfDnsRecord

pub record UpsertParams : Type 0 where
  pub fqdn : Text
  pub ip : Text
  pub proxied : Option Bool
  pub ttl : Option ℕ

pub data UpsertAction : Type 0 where
  created updated unchanged : UpsertAction

pub record UpsertResult : Type 0 where
  pub action : UpsertAction
  pub entry : CfDnsRecord

-- `===` on two Booleans.
abbrev pub bool_eq : Bool → Bool → Bool
bool_eq true b = b
bool_eq false b = not b

-- `{ type: "A", name: fqdn, content: ip, proxied, ttl }` with the defaults
abbrev pub body_of : UpsertParams → RecordBody
body_of p = record {
  name = p.fqdn;
  content = p.ip;
  proxied = or_else p.proxied false;
  ttl = or_else p.ttl 1;
}

abbrev pub needs_update : CfDnsRecord → UpsertParams → Bool
needs_update existing p =
    not (text_eq existing.content p.ip)
    || not (bool_eq (or_else existing.proxied false) (or_else p.proxied false))

module _ (api : CloudflareApi) where
  create_record : UpsertParams → Action UpsertResult
  create_record p = do
    made ←
        perform (Call.cloudflare (CloudflareCall.post_record (body_of p)))
          (api.post_record (body_of p))
    pure (record { action = created; entry = made })

  put_existing : UpsertParams → CfDnsRecord → Action UpsertResult
  put_existing p existing = do
    made ←
        perform (Call.cloudflare (CloudflareCall.put_record existing.id (body_of p)))
          (api.put_record existing.id (body_of p))
    pure (record { action = updated; entry = made })

  upsert_found : UpsertParams → Option CfDnsRecord → Action UpsertResult
  unfolding create_record put_existing
  upsert_found p none = create_record p
  upsert_found p (some existing) =
      if needs_update existing p
      then put_existing p existing
      else pure (record { action = unchanged; entry = existing })

  unfoldable pub upsert_a_record : UpsertParams → Action UpsertResult
  unfolding upsert_found
  upsert_a_record p = do
    existing ←
        perform (Call.cloudflare (CloudflareCall.search_record p.fqdn)) (api.search_record p.fqdn)
    upsert_found p existing

-- `toLowerCase` on the letters A to Z; names of resource groups are ASCII.
abbrev to_lower : Text → Text
to_lower [] = []
to_lower (c ∷ s) = (if leb b'A' c && leb c b'Z' then c + 32 else c) ∷ to_lower s

unfoldable pub ensure_resource_group_wildcard :
    CloudflareApi → Text → Text → Option Bool → Action UpsertResult
unfolding upsert_a_record trim
ensure_resource_group_wildcard api resource_group lb_public_ip proxied =
    upsert_a_record api (record {
      fqdn = codes "*." ++ to_lower (trim resource_group) ++ codes ".orchestronic.dev";
      ip = lb_public_ip;
      proxied = some (or_else proxied true);
      ttl = some 1;
    })
