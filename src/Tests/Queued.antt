-- ===== src/Tests/Queued.antt =====
-- Messages of an approval and of a destruction.
use orchestronic_be.Base.{[], ◌∷◌, ◌≡◌}
use orchestronic_be.Effects.Calls.{Call, Pattern, History}
use orchestronic_be.Messaging.Queues.{Module, delivered, delivered-sent}

abbrev some_messages : History
some_messages =
    Call.emit Pattern.destroy "r1"
    ∷ Call.emit Pattern.request "r2"
    ∷ Call.dag_run "AWS_Resources"
    ∷ Call.emit Pattern.request "r1"
    ∷ []

delivered-sent_example : delivered Module.project "request" some_messages ≡ "r2" ∷ "r1" ∷ []
delivered-sent_example = delivered-sent Module.project Pattern.request some_messages
