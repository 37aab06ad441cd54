-- ===== src/Messaging/Queues.antt =====
-- Which queue a message goes to: the clients that the five modules with a RabbitmqService register
-- (`ClientsModule.register` in src/app.module.ts, src/rabbitmq/rabbitmq.module.ts,
-- src/request/request.module.ts, src/request/project/project-request.module.ts and
-- src/infrastructure/infrastructure.module.ts), and the one that each method emits on.
use orchestronic_be.Base.{
  String, Option, none, some, List, [], ◌∷◌, ◌++◌, ◌≡◌, refl, ap, if◌then◌else◌, ◌===◌,
}
use orchestronic_be.Effects.Calls.{Call, Pattern, History}

-- The `name` of a client and its `queue`; the address of the server is the same everywhere.
pub record Registered : Type 0 where
  pub name : String
  pub queue : String

abbrev client : String → String → Registered
client name queue = record { name = name; queue = queue }

abbrev pub app_clients : List Registered
app_clients =
    client "RABBITMQ_SERVICE_1" "request"
    ∷ client "RABBITMQ_SERVICE_2" "destroy"
    ∷ client "RABBITMQ_SERVICE_3" "resource"
    ∷ client "RABBITMQ_SERVICE_4" "destroyK8s"
    ∷ []

abbrev pub rabbitmq_clients : List Registered
rabbitmq_clients =
    client "RABBITMQ_SERVICE_1" "request"
    ∷ client "RABBITMQ_SERVICE_2" "destroy"
    ∷ client "RABBITMQ_SERVICE_3" "resource"
    ∷ client "RABBITMQ_SERVICE_4" "destroyK8s"
    ∷ []

abbrev pub request_clients : List Registered
request_clients =
    client "RABBITMQ_SERVICE_1" "request"
    ∷ client "RABBITMQ_SERVICE_2" "destroy"
    ∷ client "RABBITMQ_SERVICE_3" "resource"
    ∷ client "RABBITMQ_SERVICE_4" "destroyK8s"
    ∷ []

abbrev pub project_clients : List Registered
project_clients =
    client "RABBITMQ_SERVICE_1" "request"
    ∷ client "RABBITMQ_SERVICE_2" "destroy"
    ∷ client "RABBITMQ_SERVICE_3" "resource"
    ∷ client "RABBITMQ_SERVICE_4" "destroyK8s"
    ∷ []

abbrev pub infrastructure_clients : List Registered
infrastructure_clients =
    client "RABBITMQ_SERVICE_1" "request"
    ∷ client "RABBITMQ_SERVICE_2" "destroy"
    ∷ client "RABBITMQ_SERVICE_3" "resource"
    ∷ client "RABBITMQ_SERVICE_4" "destroyK8s"
    ∷ []

pub data Module : Type 0 where
  app rabbitmq request project infrastructure : Module

abbrev pub clients_of : Module → List Registered
clients_of Module.app = app_clients
clients_of Module.rabbitmq = rabbitmq_clients
clients_of Module.request = request_clients
clients_of Module.project = project_clients
clients_of Module.infrastructure = infrastructure_clients

-- The client that the method for a pattern emits on, by its token in the constructor.
abbrev pub token_of : Pattern → String
token_of Pattern.request = "RABBITMQ_SERVICE_1"
token_of Pattern.destroy = "RABBITMQ_SERVICE_2"
token_of Pattern.resource = "RABBITMQ_SERVICE_3"
token_of Pattern.destroy_k8s = "RABBITMQ_SERVICE_4"

-- The pattern as it is written in the message.
abbrev pub pattern_name : Pattern → String
pattern_name Pattern.request = "request"
pattern_name Pattern.destroy = "destroy"
pattern_name Pattern.resource = "resource"
pattern_name Pattern.destroy_k8s = "destroyK8s"

-- The queue of the client that is injected for a token.
unfoldable pub queue_of : List Registered → String → Option String
queue_of [] token = none
queue_of (c ∷ cs) token = if c.name === token then some c.queue else queue_of cs token

-- The ids that a call sends to a queue, from a module.
abbrev arrives : Option String → String → String → List String
arrives none queue id = []
arrives (some q) queue id = if q === queue then id ∷ [] else []

abbrev pub delivered : Module → String → History → List String
delivered m queue [] = []
delivered m queue (Call.emit p id ∷ h) =
    arrives (queue_of (clients_of m) (token_of p)) queue id ++ delivered m queue h
delivered m queue (_ ∷ h) = delivered m queue h

-- The ids that were sent with a pattern.
abbrev pub sent : Pattern → History → List String
sent p [] = []
sent p (Call.emit q id ∷ h) =
    (if pattern_name q === pattern_name p then id ∷ [] else []) ++ sent p h
sent p (_ ∷ h) = sent p h

queue_of-app : (p : Pattern) → queue_of app_clients (token_of p) ≡ some (pattern_name p)
unfolding queue_of
queue_of-app Pattern.request = refl
queue_of-app Pattern.destroy = refl
queue_of-app Pattern.resource = refl
queue_of-app Pattern.destroy_k8s = refl

queue_of-token :
    (m : Module) (p : Pattern) → queue_of (clients_of m) (token_of p) ≡ some (pattern_name p)
queue_of-token Module.app p = queue_of-app p
queue_of-token Module.rabbitmq p = queue_of-app p
queue_of-token Module.request p = queue_of-app p
queue_of-token Module.project p = queue_of-app p
queue_of-token Module.infrastructure p = queue_of-app p

-- In each of the five modules, the queue with the name of a pattern is sent the ids that were
-- emitted with that pattern, all of them and in their order, and no others.
pub delivered-sent :
    (m : Module) (p : Pattern) (h : History) → delivered m (pattern_name p) h ≡ sent p h
delivered-sent m p [] = refl
delivered-sent m p (Call.emit q id ∷ h) = rw (queue_of-token m q) (
    ap (λ ids. (if pattern_name q === pattern_name p then id ∷ [] else []) ++ ids)
      (delivered-sent m p h))
delivered-sent m p (Call.read _ ∷ h) = delivered-sent m p h
delivered-sent m p (Call.write _ ∷ h) = delivered-sent m p h
delivered-sent m p (Call.gitlab _ ∷ h) = delivered-sent m p h
delivered-sent m p (Call.dag_run _ ∷ h) = delivered-sent m p h
delivered-sent m p (Call.airflow _ ∷ h) = delivered-sent m p h
delivered-sent m p (Call.blob _ ∷ h) = delivered-sent m p h
delivered-sent m p (Call.price _ _ ∷ h) = delivered-sent m p h
delivered-sent m p (Call.cloudflare _ ∷ h) = delivered-sent m p h
delivered-sent m p (Call.cookie _ ∷ h) = delivered-sent m p h
delivered-sent m p (Call.initialize _ ∷ h) = delivered-sent m p h
