-- ===== src/Lib.antt =====
-- The control plane server of OKDP: a model of its core and the theorems about it.
--
-- The server lets a project declare connections to outside services. A contract, read from an
-- embedded catalog, lists the fields of a connection of its type. The values of a connection go into a
-- Kubernetes object (a KuboCD Connection), its credentials into a Secret beside it. It also lets a project
-- deploy services, each as a KuboCD Release, from a catalogue that an object of the cluster holds, the
-- platform Context, which every release and the server itself are configured with.
--
-- Modules and the code they model:
--   Base            shared helpers: Go maps, results and errors, sorting, texts, rules for chains of
--                   calls
--   Connection.Model        the data of contracts: internal/models/connection.go
--   Connection.Catalog      loading, normalising and validating: internal/service/contract_catalog.go
--   Connection.Repository   access to Connections and Secrets:
--                           internal/repository/connection_repository.go and
--                           internal/repository/crd/connection_types.go
--   Connection.Credentials, Connection.Requests, Connection.Submitted, Connection.Service
--                           the service, internal/service/connection_service.go: its helpers, the
--                           validation of a request, the objects it submits, and its operations
--   Access.Token, Access.Guards
--                           bearer tokens and the guards of the routes: internal/auth/verifier.go,
--                           internal/api/middleware/auth.go and project.go,
--                           internal/models/platform_identity.go
--   Identity.Model, Identity.Repository, Identity.Service
--                           users, groups and bindings: internal/models/identity.go,
--                           internal/repository/crd/identity.go,
--                           internal/repository/identity_repository.go,
--                           internal/service/identity_service.go
--   Platform.Model, Platform.Sections, Platform.Reading, Platform.Settings
--                           what is read of the platform Context: internal/models/service.go,
--                           internal/models/spark.go, internal/repository/context_repository.go
--   Platform.Context        its cache, in the same file
--   Platform.Writer         the edits of the service catalogue:
--                           internal/repository/context_writer_repository.go
--   Deployment.Model, Deployment.Names, Deployment.Instance
--                           releases, who owns an object by its name, and what a release tells of the
--                           service: internal/repository/crd/release_types.go,
--                           internal/models/mapper.go, internal/service/insecure_registries.go
--   Deployment.Cluster      internal/repository/service_repository.go over the API server
--   Deployment.Service, Deployment.Catalog
--                           deploying and deleting services, and editing the catalogue:
--                           internal/service/service_service.go
--   Deployment.Workloads    the Helm releases, pods and Ingresses of a release, in the same file
--   Deployment.Console      the catalogue operations wired to the Context
--   Probe.Model             the probe of custom resources, asked by many requests at once:
--                           internal/repository/api_availability.go
--   Access.Tests, Connection.Tests, Deployment.Tests, Identity.Tests, Platform.Tests, Probe.Tests
--                           stores in memory, on which the theorems are applied
-- The modules below these, such as Connection.Service.Delete, hold the proofs about them.
--
-- State. A call that reads or writes the cluster is a function from a world to a result and a world
-- (`Action` of Base.Go), composed in the order in which the code makes its calls; a Go error is the `err`
-- of a result, or `some` where a function returns only an error. The messages of errors are left out,
-- what they mention is kept. Go maps are association lists; where the code ranges over a map, the model
-- takes the order of the list.
--
-- Parameters. The Kubernetes API is `Kube`, with what the code relies on in the record `KubeLaws` of
-- Connection.Repository.Assumptions: a read changes nothing, a write changes the object that it names,
-- a refused write changes nothing, objects carry no finalizer, and nobody else writes between the
-- calls of one request. float64 is
-- a type with a comparison, `Floats`. The check of object names, `IsDNS1123Subdomain`, is a field of
-- `ConnectionService`. The check of token signatures is a field of `OidcVerifier`, the hash of
-- passwords an argument of the identity service, and the kubauth API a record `Objects` for each
-- resource, with `UserLaws` for what is stored of users.
--
-- The platform Context is JSON (Base.Json). The helpers of Kubernetes that read a path of it are the
-- record `Unstructured`, and the API server and the clock are `ContextApi`. Others may edit the Context
-- at any time: `ServerLaws` speaks of the history of all stored versions, in which an accepted update
-- replaces the version that it was made from. `RetryOnConflict` is an argument, of which `RetryLaw` says
-- that it returns what its last attempt returns. The releases, pods and volumes are reached through
-- `Cluster`, and the verdict of the JSON schema library and the regular expression of service names are
-- parameters. Names of cluster objects are compared as texts; where the code compares lengths, bytes of
-- UTF-8 are counted. In the probe, a step is what a request does under the lock at once or one thing that
-- it does outside of it, and the discovery call may take any time and answer anything.
--
-- No definition runs on fuel: every loop goes over a list or a text, but for the loop of the probe, which
-- is a relation. Times are natural numbers of nanoseconds; no machine integer is computed with.
--
-- Not modelled: the HTTP handlers and the router, the connection tester, the listings of internal,
-- selectable and consuming objects of the connection service, and what only logs. Of the deployments, the
-- listings, the warnings of events, the pods shown, the metrics and the watch are not modelled. The package schemas, the secret stores, the external secrets, the projects and Spark are not
-- modelled.
pub mod Access
pub mod Base
pub mod Connection
pub mod Deployment
pub mod Identity
pub mod Platform
pub mod Probe
