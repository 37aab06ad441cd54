-- ===== src/Cloudflare/Upsert.antt =====
-- An upsert makes the record as asked for, and a second one changes nothing.
use orchestronic_be.Base.{String, none, some, false, ◌≡◌, arith, inl, inr, or_else, ◌∷◌, Bool-cases}
use orchestronic_be.Base.Text.{Text, text_eq_refl}
use orchestronic_be.Effects.Calls.{Call, CloudflareCall, RecordBody, History, effects}
use orchestronic_be.Effects.Monad.{returned, Outcome-cases}
use orchestronic_be.Cloudflare.{
  CloudflareApi, CfDnsRecord, UpsertParams, UpsertResult, unchanged, needs_update, body_of,
  upsert_a_record,
}

-- Cloudflare's documented behaviour for one name: what a POST or a PUT answers carries the content
-- and the proxy flag of its body, and the searches for that name that follow find it.
pub record StoresRecords (api : CloudflareApi) : Type 0 where
  pub posted :
      (b : RecordBody) (h : History) (r : CfDnsRecord)
      → api.post_record b h ≡ returned r
      → (r.content ≡ b.content)
        × (r.proxied ≡ some b.proxied)
        × (api.search_record b.name (Call.cloudflare (CloudflareCall.post_record b) ∷ h)
            ≡ returned (some r))
  pub replaced :
      (id : String) (b : RecordBody) (h : History) (r : CfDnsRecord)
      → api.put_record id b h ≡ returned r
      → (r.content ≡ b.content)
        × (r.proxied ≡ some b.proxied)
        × (api.search_record b.name (Call.cloudflare (CloudflareCall.put_record id b) ∷ h)
            ≡ returned (some r))
  -- a search changes nothing
  pub searched :
      (n : Text) (h : History)
      → api.search_record n (Call.cloudflare (CloudflareCall.search_record n) ∷ h)
        ≡ api.search_record n h

-- A record that carries what was asked for needs no update.
same_content :
    (r : CfDnsRecord) (p : UpsertParams)
    → r.content ≡ p.ip
    → r.proxied ≡ some (or_else p.proxied false)
    → needs_update r p ≡ false
same_content r p e f = rw (e, f) (ground (arith, text_eq_refl p.ip))

module _ (api : CloudflareApi) (stores : StoresRecords api) (p : UpsertParams) (h : History) where
  abbrev after_search : History
  after_search = Call.cloudflare (CloudflareCall.search_record p.fqdn) ∷ h

  -- An upsert that returns leaves a record that a search finds and that needs no update.
  upsert_settles :
      (r : UpsertResult)
      → (upsert_a_record api p h).0 ≡ returned r
      → (api.search_record p.fqdn (upsert_a_record api p h).1 ≡ returned (some r.entry))
        × (needs_update r.entry p ≡ false)
  unfolding upsert_a_record
  upsert_settles r e = elim (Outcome-cases (api.search_record p.fqdn h)) [
    | inr (x, q) ↦ absurd (ground arith)
    | inl (none, q) ↦ elim (Outcome-cases (api.post_record (body_of p) after_search)) [
      | inr (x, q') ↦ absurd (ground arith)
      | inl (made, q') ↦
          let (c, f, found) = stores.posted (body_of p) after_search made q' in
          let same : r.entry ≡ made = ground arith in
          (ground (arith, found), rw same (same_content made p c f))
    ]
    | inl (some existing, q) ↦ elim (Bool-cases (needs_update existing p)) [
      | inr fits ↦
          let same : r.entry ≡ existing = ground arith in
          (ground (arith, stores.searched p.fqdn h), rw same fits)
      | inl stale ↦ elim (Outcome-cases (api.put_record existing.id (body_of p) after_search)) [
        | inr (x, q') ↦ absurd (ground arith)
        | inl (made, q') ↦
            let (c, f, found) = stores.replaced existing.id (body_of p) after_search made q' in
            let same : r.entry ≡ made = ground arith in
            (ground (arith, found), rw same (same_content made p c f))
      ]
    ]
  ]

module _ (api : CloudflareApi) (p : UpsertParams) (h : History) (r : UpsertResult)
    (found : api.search_record p.fqdn h ≡ returned (some r.entry))
    (fits : needs_update r.entry p ≡ false) where
  second_unchanged :
      (upsert_a_record api p h).0 ≡ returned (record { action = unchanged; entry = r.entry })
  unfolding upsert_a_record
  second_unchanged = ground arith

  second_quiet : effects (upsert_a_record api p h).1 ≡ effects h
  unfolding upsert_a_record
  second_quiet = ground arith

-- The second of two upserts with the same parameters, with no call between them, answers
-- "unchanged" with the record of the first, and writes nothing.
pub upsert_twice :
    (api : CloudflareApi) (p : UpsertParams) (h : History) (r : UpsertResult)
    → StoresRecords api
    → (upsert_a_record api p h).0 ≡ returned r
    → let second = upsert_a_record api p (upsert_a_record api p h).1 in
      (second.0 ≡ returned (record { action = unchanged; entry = r.entry }))
      × (effects second.1 ≡ effects (upsert_a_record api p h).1)
upsert_twice api p h r stores e =
    let (found, fits) = upsert_settles api stores p h r e in
    let h' = (upsert_a_record api p h).1 in
    (second_unchanged api p h' r found fits, second_quiet api p h' r found fits)
