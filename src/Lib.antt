-- ===== src/Lib.antt =====
-- voodu: a controller that keeps containers on a host as the manifests of its users say.
--
-- The controller stores manifests, watches them and reconciles each change with a handler of its
-- kind; a scheduler fires cronjobs, and probes watch the pods. This library models the parts that
-- decide, and leaves out those that only call other programs:
--
-- Base          numbers, Booleans, lists, dictionaries, and the functions of Go's strings and
--               strconv that the code uses, over a string as the list of its bytes.
-- Probe         internal/probe: Spec.applyDefaults, the Runner with New, sample and Run. A
--               runner's state is the record Runner; one wake-up of Run is `step`, and `run` folds it
--               over the signals it gets (a tick with the probe's answer, a cancellation).
-- Cron          internal/controller/cron.go: ParseSchedule, parseField, parseRange (Cron.Field,
--               Cron.Parse), and match and Next (Cron.Schedule).
-- Scheduler     internal/controller/scheduler.go: evaluate and dispatchOne of CronScheduler, over the
--               cronjobs the store lists, and decodeCronJobSpec of handlers_cronjob.go. It uses
--               Cron for the next time of an expression.
-- Reconciler    internal/controller/reconciler.go and retry.go: handle, scheduleRetry and Run's
--               treatment of one event, as the sequence of its effects.
-- Keys          internal/controller/keys.go: ParseKind, DesiredKey and ConfigKey, with parseDesiredKey of
--               store.go, and IsScoped, AppID and Validate of manifest.go.
-- Calls         calls that keep the state of a service and may fail, with rules for what holds
--               before and after a chain of them.
-- Etcd          what the store uses of etcd's client: keys and values, and transactions.
--               Etcd.Client adds listings of a prefix, puts and deletes, and Etcd.Memory is a client
--               that keeps its keys in memory.
-- PodIps        internal/controller/pod_ip_store.go: ReservePodIP, GetPodIP, ReleasePodIP and
--               ReleasePodIPs over Etcd, with the keys of keys.go; PodIps.Addresses and
--               PodIps.Allocation are fixedPodAddresses and addressFor of pod_ips.go.
-- Store         internal/controller/store.go: Put, Get, Delete, the listings and the status of
--               manifests; Store.Config is the configuration of scopes and apps, Store.Records the
--               frozen replicas with pat_store.go, trigger_store.go and wire_store.go, and
--               Store.Watch is Watch, as a function of the stream of etcd's responses.
-- Autoscaler    internal/controller/autoscaler.go: evaluateOne and evaluate, Run as a list of sweeps, and
--               SetReplicas over Store (Autoscaler.Apply); Autoscaler.Pacing is what the loop keeps.
-- Wire          internal/controller/wire.go: Validate, AllowedIPs and routes; Wire.Peers is Add and
--               Remove over Store, with the application of the peers as a parameter.
--               The routes read the dotted IPv4 addresses, which alone Validate admits.
-- Trigger       internal/controller/trigger.go: Normalize, AllowsScope, RefusedScopes and MatchesRepo.
-- RateLimit     internal/controller/pat_ratelimit.go: patRateLimiter's allow, with the list elements
--               as handles and their entries in a store; RateLimit.Recency is the same as a list of the
--               recent tokens.
-- Ports         internal/controller/surge.go: hostPortMode, canSurge and parseHostBinding, with
--               normalizePort of handlers.go.
-- Pods          what containers are made of: names and ordinals of internal/containers/labels.go,
--               internal/controller/aliases.go and pod_env.go, and effectiveLogs of handlers.go.
-- Fleet         internal/controller/handlers.go: DeploymentHandler. Fleet.Replicas is
--               ensureReplicaCount, pruneExtraReplicas and rollingReplaceReplicas, Fleet.Handler is
--               apply, remove and Restart with the status and the releases, and Fleet.Init is
--               init_containers.go. What they call is the record Host, whose laws are in Fleet.Laws;
--               Fleet.World is the list of containers that the laws speak of.
--
-- A Go int is a natural number below 2^64, its sums written modulo 2^64, with a test of the sign
-- where the code compares. A mask of bits is a function from positions to Bool. The loop of
-- parseRange runs on fuel 130, enough for every range within 0..63 and every positive step, and
-- Next on the minutes of 4 * 366 days, which is the code's own limit. The handling of an event is
-- bounded by the attempts of the code itself, so that the fuel of Reconciler.reconcile is
-- the code's greatest number of attempts, max_retry_attempts.
--
-- A client of etcd is a record of calls with laws: a read returns the value of the key, a listing
-- the keys of its prefix, and a write is atomic, one that fails having been applied or not. Go maps
-- are association lists, those of arguments with each key once. An IPv4 address is a number
-- below 2 ^ 32; the loop of fixedPodAddresses has the size of the subnet as fuel.
--
-- The token buckets of golang.org/x/time/rate, the calendar of a location, JSON, floating-point
-- numbers, base64, net.SplitHostPort, time.ParseDuration, the statistics of pods, the handlers and
-- what the store holds when a retry reads it again are parameters. Probes are parameters too: a
-- runner is given their answers. Locks are not modelled: each operation stands for what one
-- goroutine does while it holds them. Not modelled are the decoding of
-- specs with their defaults, assets and hashes, the handlers of the other resource kinds, the API,
-- the plugins and all that calls docker, which are mostly calls of other programs.
--
-- A host of containers is a record of calls as well: a container is started only under a name that is
-- not taken, a removal takes one name away, a change that failed may have been made or not, and a
-- listing has every container of the deployment once. The sleeps of a rollout and the webhook at
-- its end are left out; the answer of Fleet.Handler.apply is whether the webhook reports success.

pub mod Base
pub mod Probe
pub mod Cron
pub mod Scheduler
pub mod Reconciler
pub mod Keys
pub mod Etcd
pub mod Store
pub mod PodIps
pub mod Wire
pub mod Autoscaler
pub mod Trigger
pub mod RateLimit
pub mod Ports
pub mod Calls
pub mod Pods
pub mod Fleet
