-- ===== src/Lib.antt =====
-- Verification of the RHPAM dev operator, a Kubernetes operator in Go.
--
-- The program has two controllers over one cluster. The RhpamDev controller
-- (pkg/controller/rhpamdev) takes a RhpamDev object through the phases of an installation: a realm
-- in Keycloak, a database, Business Central, a KIE server. The RhpamUser controller
-- (pkg/controller/rhpamuser) brings the roles and users of that realm to a spec, and moves a
-- RhpamDev object from "realm provisioned" to "prepare provisioning". Both call Keycloak through
-- pkg/keycloak.
--
-- Files and the code that they model:
--   Base: shared names, Boolean tests, lists, dictionaries; models no code.
--   Api: pkg/apis/rhpam/v1alpha1 (types.go, rhpamdev_types.go, rhpamuser_types.go).
--   DeepCopy: zz_generated.deepcopy.go of the same package. Memory has the heap and Cells the types
--     in it; Holds says what a value in memory stands for.
--   Objects: the cluster objects and HTTP messages, and the events that the model records.
--   Env: the outside: the Kubernetes client, HTTP, decoders, templates, files, environment
--     variables, clock, random numbers, and the order of map iteration, all parameters.
--   Effect: actions on the outside state, with errors, panics and the events caused. Effect/Emits
--     and Effect/Returns have rules for what an action can cause and return, Effect/Achieves for
--     actions that succeed.
--   Cluster: the calls of client.Client.
--   Common: pkg/controller/common/utils.go, and the login that both phase handlers share.
--   Keycloak: pkg/keycloak. Types is types.go; Template is templateHelper.go and the helpers that
--     load one template each; Http has create, get, delete, deleteWithBody and list; Interface is
--     KeycloakInterface; Client has the methods of Client. Server says what the interface promises
--     about the roles of a realm, for proofs about its clients, and Server/Mappings what it promises
--     about the roles of a user. Server/Rest and Server/MappingRest have the REST requests and
--     replies under which Client keeps these promises.
--   Dev: pkg/controller/rhpamdev. Names has the constants; Template is templateHelper.go; Resources
--     is resourceHelper.go with createResource, createSecret and createConfigmap; Configmap is
--     configmapHelper.go; Token is generateToken; Realm is ProvisionRealm; Phases has the other
--     phase methods; Deprovision is Deprovision; Reconcile is rhpamdev_controller.go. Resources/Server
--     says what an API server promises about the objects of the installation.
--   User: pkg/controller/rhpamuser. Defaults and Reconcile are rhpamuser_controller.go; Members,
--     Pairs, Sync and Phases are phaseHandler.go.
--   Start: cmd/manager/main.go and pkg/controller/controller.go, with `add` of both controllers.
--   System: the two controllers together, at one RhpamDev object. Their reconciliations follow one
--     another, since the API server takes an update only for the version that the sender has.
--   Tests: the theorems at concrete inputs.
--
-- How the code is read. A pointer to an object that a method changes and returns is a value that
-- is passed on, and outside DeepCopy a deep copy is the value itself. A Go `error` is a result of
-- an action, and a panic is another; an error that the source drops is dropped by `ignore` or
-- `handle`. A call to the cluster or over HTTP is an event, and so is receiving and closing a
-- response body. Logging is left out. Environment variables, files and templates do not change
-- during a call. A `Get` that fails leaves its target as it was, and an `Update` that fails
-- leaves its object as it was. Decoded lists hold no nil pointers, and a decoded user has the
-- pointer that its type embeds, which encoding/json sets once the text has one of its fields.
-- Names that are compared are native texts. Every loop of the source is a recursion on its list,
-- so there is no fuel.
--
-- Not modelled: the registration of the types with the scheme in pkg/apis, which calls the
-- library only, the handles that main passes from call to call, and a call of the program for its
-- help text; a user decoded from an object without fields, where `user.ID` would panic; the memory
-- of object metadata, whose copy is a library call; vendored code, whose calls are parameters; the
-- text of the templates and SQL files.
pub mod Base
pub mod Api
pub mod Objects
pub mod Env
pub mod Effect
pub mod Cluster
pub mod Keycloak
pub mod Common
pub mod Dev
pub mod User
pub mod DeepCopy
pub mod Start
pub mod System
pub mod Tests
