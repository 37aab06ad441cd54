-- ===== src/Tests/Dns.antt =====
-- A zone that keeps what was last written under each name.
use orchestronic_be.Base.{Option, none, some, [], ◌∷◌, ◌≡◌, refl, false, if◌then◌else◌}
use orchestronic_be.Base.Text.{Text, codes, text_eq, text_eq_refl}
use orchestronic_be.Effects.Calls.{Call, CloudflareCall, RecordBody, History, effects}
use orchestronic_be.Effects.Monad.{returned}
use orchestronic_be.Cloudflare.{
  CloudflareApi, CfDnsRecord, UpsertParams, created, unchanged, upsert_a_record,
}
use orchestronic_be.Cloudflare.Upsert.{StoresRecords, upsert_twice}

abbrev kept : RecordBody → CfDnsRecord
kept b = record { id = "rec"; content = b.content; proxied = some b.proxied }

abbrev newest : Text → Option CfDnsRecord → Call → Option CfDnsRecord
newest n before (Call.cloudflare (CloudflareCall.post_record b)) =
    if text_eq b.name n then some (kept b) else before
newest n before (Call.cloudflare (CloudflareCall.put_record id b)) =
    if text_eq b.name n then some (kept b) else before
newest n before c = before

abbrev lookup : Text → History → Option CfDnsRecord
lookup n [] = none
lookup n (c ∷ h) = newest n (lookup n h) c

abbrev zone : CloudflareApi
zone = record {
  search_record = λ n h. returned (lookup n h);
  post_record = λ b h. returned (kept b);
  put_record = λ id b h. returned (kept b);
}

zone-StoresRecords : StoresRecords zone
zone-StoresRecords = record {
  posted = λ b h r e.
      let same : r ≡ kept b = cc in
      (rw same refl, rw same refl, rw (same, text_eq_refl b.name) refl);
  replaced = λ id b h r e.
      let same : r ≡ kept b = cc in
      (rw same refl, rw same refl, rw (same, text_eq_refl b.name) refl);
  searched = λ n h. refl;
}

abbrev wildcard : UpsertParams
wildcard = record {
  fqdn = codes "*.a.dev";
  ip = codes "10.0.0.1";
  proxied = some false;
  ttl = some 1;
}

abbrev made : CfDnsRecord
made = record { id = "rec"; content = codes "10.0.0.1"; proxied = some false }

first_upsert :
    (upsert_a_record zone wildcard []).0 ≡ returned (record { action = created; entry = made })
unfolding upsert_a_record
first_upsert = refl

upsert_twice_example :
    let second = upsert_a_record zone wildcard (upsert_a_record zone wildcard []).1 in
    (second.0 ≡ returned (record { action = unchanged; entry = made }))
    × (effects second.1 ≡ effects (upsert_a_record zone wildcard []).1)
upsert_twice_example =
    upsert_twice zone wildcard [] (record { action = created; entry = made }) zone-StoresRecords
      first_upsert
