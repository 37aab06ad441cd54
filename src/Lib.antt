-- ===== src/Lib.antt =====
-- Orchestronic backend: requests for cloud resources, their approval, and what it sets off.
--
-- The program is a NestJS application (src/). Users ask for a repository with cloud resources
-- (src/request), an Admin or IT user decides, and an approval makes a GitLab project, queues a
-- message to the workers and starts an Airflow DAG. Clusters are asked for and approved in the same
-- way, and images of a repository are deployed to them (src/request/project). The services share
-- the Prisma client, the GitLab client, the message queues, the Airflow client and the client of
-- the Cloudflare API.
--
-- Files:
--   Schema              prisma/schema.prisma, the rows and enums that the services use
--   Effects             what leaves the process. Effects/Data and Effects/Calls: the arguments of
--                       the calls and the calls themselves, Effects/Monad: actions, Effects/Added:
--                       what an action adds to the history, Effects/Prisma: the Prisma client as
--                       a record of answers
--   Gitlab              src/gitlab/gitlab.service.ts and gitlab.controller.ts, with the routes of
--                       src/rabbitmq/rabbitmq.controller.ts
--   Messaging           src/rabbitmq/rabbitmq.service.ts, triggerDag of
--                       src/airflow/airflow.service.ts. Messaging/Queues: the clients of
--                       src/app.module.ts, src/rabbitmq/rabbitmq.module.ts,
--                       src/request/request.module.ts,
--                       src/request/project/project-request.module.ts and
--                       src/infrastructure/infrastructure.module.ts
--   Catalogue           getVmSizesPaginated of src/request/request.service.ts, findAws and
--                       findAwsDB of src/cloud-providers/cloud-providers.service.ts
--   Session             the check of the access token in src/request/request.controller.ts
--   Cloudflare          src/cloudflare/cloudflare.service.ts
--   Request/Dto         the bodies of src/request/dto and src/resource/dto, the token's payload
--   Request/DisplayCode the display codes R-1, R-2, ...
--   Request/Create      createRequestAzure and createRequestAws
--   Request/Update      updateRequestInfo and updateRequestFeedback
--   Request/Query       findAll, findByStatus, findWithRequestDisplayCode, removeRequest
--   Request/Controller  src/request/request.controller.ts
--   Project/Tables      the further tables of src/request/project/project-request.service.ts
--   Project/Outside     the services that it calls
--   Project/Cluster     createCluster, updateClusterRequestStatus and lists of clusters
--   Project/Deploy      DeployToK8sCluster, with src/k8sautomation/k8sautomation.service.ts
--   Project/Lists       the other lists of clusters
--   Project/Controller  src/request/project/project-request.controller.ts
--   Policy              src/aws-policy and src/azure-policy
--   Env                 environment variables and headers as texts
--   Origins             the CORS set-up of src/main.ts
--   Auth                src/auth/auth.controller.ts; Auth/Lockout: its refreshed tokens on the
--                       routes of the other controllers
--   Users               src/user, and src/auth/strategies/azure-ad.strategy.ts
--   Secrets             src/cloud
--   Infrastructure      src/infrastructure
--   Patterns            the patterns that Storage looks for in names
--   Storage             src/azure-storage
--   Airflow             the readers of src/airflow/airflow.service.ts, and its controller
--   Repositories        src/repositories and src/resource
--   GitlabSync          src/gitlab/gitlab-sync.service.ts
--   Seeds               prisma/seed/seed-azure-vm-size.ts, seed-aws-instance-type.ts, seed-aws-db.ts
--                       and seed-policy.ts. Seeds/Store: scripts over the states of a database
--   Serverless          getVercelHandler and handler of src/main.ts
--   Startup             the session and the port in src/main.ts
--   Tests               runs at concrete inputs, in Tests/World a small database and servers
--
-- An action takes the history of the calls made so far, the latest first, and gives back an
-- outcome, a value or an exception, with the longer history. A database or a server is a record
-- of functions from the arguments of a call and the history before it to its answer: nothing is
-- assumed of one except where a theorem takes a law of it as a hypothesis. The laws are Holds
-- (count, skip and take of Prisma), HonoursWhere and HonoursIn (its where), KeepsRequests (its
-- newest row), StoresRecords (Cloudflare), Serves (GitLab and the database of a
-- synchronisation), SignsWith (jsonwebtoken), IsTable and IsPolicyStore (DELETE and INSERT of
-- the seeds), IsLocal (a secret is found by its owner), and IsLinked and StoresStatus (the row
-- of a request).
-- Every await is a step in the order of the source; a promise that is not awaited is an action whose
-- end is ignored, and whose calls come at the place where it is started.
--
-- The claims of a token are not checked by the program: each may be absent. An id that is absent,
-- which is undefined in the source, stays absent in the arguments of the Prisma client, for which
-- it is no condition in a where.
--
-- Numbers are natural numbers without bound; a JavaScript number is exact below 2 ^ 53, and the
-- validated queries have pages and limits of one or more, so the subtraction in (page - 1) *
-- limit is exact. Three functions run on fuel. The digits of n take suc n rounds, since each
-- round divides by ten. A reader of a catalogue takes as many rounds as there are pages, which
-- is the hypothesis of the theorems about it. The seed of the machine sizes takes as many rounds
-- as the file has rows, and its theorem shows that the loop is never cut short. Every other loop
-- is by recursion on a list, or on the names that a listing of the blob storage gives. Strings
-- that the program looks into are lists of code units; those that it only passes on or compares
-- are native strings, and so is the path of a GitLab address. Names of repositories and clusters
-- are taken to have no characters above U+FFFF.
--
-- Not modelled: what NestJS, passport, class-validator and swagger do with the decorators, logging,
-- the HTTP headers of the calls, and the environment variables that name the servers. Nor are
-- getVmSizes of the request service, which no route calls, the seeds of users, repositories and
-- requests, which are not run and make random rows, the migrations, the DAGs in Python and the
-- Terraform files. The queries of a Promise.all are made one item after the other.
pub mod Base
pub mod Schema
pub mod Effects
pub mod Gitlab
pub mod Messaging
pub mod Catalogue
pub mod Session
pub mod Env
pub mod Patterns
pub mod Policy
pub mod Cloudflare
pub mod Request
pub mod Project
pub mod Origins
pub mod Auth
pub mod Users
pub mod Secrets
pub mod Infrastructure
pub mod Storage
pub mod Airflow
pub mod Repositories
pub mod GitlabSync
pub mod Seeds
pub mod Serverless
pub mod Startup
pub mod Tests
