-- ===== src/Lib.antt =====
-- daemonjob, a Kubernetes controller that runs a Job on every node, as a model with proofs. A
-- DaemonJob or a DaemonCronJob is turned into a broadcast Job or CronJob with a ServiceAccount and
-- a ClusterRoleBinding; the broadcast lists the nodes and creates one worker Job per node; the
-- controller watches all of these and writes the status. A DaemonCronJobSet is turned into one
-- CronJob per node.
--
-- Which file models what:
--
-- Kube (Pods, Jobs) has the objects of the Kubernetes API, with the fields that the program reads
-- or sets. The type X stands for what the program passes along unread: `other : Option X` is the
-- rest of a struct. Api is api/v1, the custom resources.
--
-- StringMap is Go's map[string]string; a nil map is `none` where the program can meet one, and
-- writing to it is the outcome `panicked`. Two maps are compared key by key (SameMap). Selects is
-- the documented meaning of a label selector made by labels.SelectorFromSet.
--
-- Status is internal/controller/status.go: the conditions (Status), State told without order
-- (Status.Verdict) and how the setters move it (Status.State), CheckJobStatus (Status.JobStatus)
-- and the termination logs (Status.Logs). meta.SetStatusCondition is a parameter with the laws of
-- its documentation (ConditionLaws).
--
-- Resources is internal/controller/daemonjob.go, daemoncronjob.go, daemoncronjobset.go and
-- internal/util/label.go: the methods of DaemonJobBroadcastArgs, DaemonCronJobBroadcastArgs and
-- DaemonCronJobSetArgs, under the methods' names. DeepCopy is the identity on values. Where
-- CronJob changes the label map that it shares with its receiver, the model returns the receiver
-- as it is left. Resources.Names tells which names can coincide.
--
-- Client is the client of controller-runtime as a record of operations over a state W of the
-- cluster, in which every call may change the state; a call is a function from a state to a result
-- and a state. Client.Selectors and Client.Operations are internal/controller/api.go, Client.Laws
-- what theorems ask of a client. The functions of controllerutil on finalizers are a parameter
-- (FinalizerOps). ctrl.CreateOrUpdate is an operation of the client; what Converge asks of it is
-- what its documentation says with the mutate functions of the program: an object that is there
-- only gets its owner.
--
-- Broadcast is internal/broadcast/broadcast.go: LoadConfigFromEnv (Config), BuildWorkerJob
-- (Worker) and Run (Runner); Runner.Refusal is about one dry run that fails, by which Limits tells
-- what names that are too long for Kubernetes do, and Again what a second run does. Main is
-- cmd/broadcast/main.go with NewRunner and WriteTerminationLog, whose kube configuration, client
-- constructor and termination file are parameters. Scheduling says what the scheduler makes of
-- affinity and, as the Kubernetes API documents them, of tolerations; the matcher of one node
-- selector term is a parameter.
--
-- Reconcile.DaemonJob is internal/controller/daemonjob_controller.go: onDelete and
-- deleteWorkerJobsOnNotExistNode (Cleanup), updateStatus (Report), Reconcile (Cycle), the requests
-- of the watches (Watch). Standing has a decision table for the status, to which Verdict relates
-- updateStatus; Deletion is about what is deleted, Converge about one reconcile against an API
-- server without failures, Finished about that of a DaemonJob that is being deleted.
--
-- Reconcile.DaemonCronJob is internal/controller/daemoncronjob_controller.go in the same way;
-- building the CronJob may panic there, which stops the call like an error (Stop). Available is
-- about the status that it writes, Converge and Finished about one reconcile against an API server
-- without failures. Contents and Bindings are what DaemonJob and DaemonCronJob share of that.
-- Reconcile.DaemonCronJobSet is internal/controller/daemoncronjobset_controller.go; Counts is
-- about its status, Converge about the CronJobs that one reconcile leaves in an API server without
-- failures (Store), Tally about their number. Sweep is about the loops that delete what fails a
-- test. Watches, and the Watch modules of the three, are the requests that changes of Jobs and
-- nodes lead to.
--
-- Lifecycle puts the reconciler of a DaemonJob and the broadcast together: Broadcast.Pod is the
-- environment of the Job's pod, for which the downward API is a parameter with the fields that it
-- documents, and Lifecycle what cmd/broadcast does there.
--
-- Reconcile.Setup has what the three SetupWithManager register. Manager is cmd/controller/main.go
-- with the flags' values, the options of the manager and its start (Start); the parsing of flags,
-- the manager and the builder of controllers are parameters.
--
-- Quorum is internal/util/cond.go: each goroutine is at a place in its call, `advance` is its next
-- statement, and Step lets any of them move. Invariant holds for any callers, Rounds and Progress
-- are about one round, Termination bounds the steps.
--
-- Ctl is the command line tool. Ctl.Resource, Manifest and Generate are
-- internal/daemonjobctl/output.go (its types) and generate.go, Output is WriteYAML, Skeleton is
-- skeleton.go and constants.go, Command is runSkeleton and runGenerate of cmd/daemonjobctl/main.go
-- from the values of the flags on, Main its main with internal/daemonjobctl/version.go, and
-- Main.Piped the command skeleton before the command generate; YAML, the flag package, the files
-- and standard streams, strings.ToLower and strings.TrimSpace are parameters. Preview sets the
-- simulated workers beside the broadcast's own, and Preview.Nodes tells for which nodes they are;
-- Command.Kinds says which skeleton belongs to which kind; Documents is about several documents,
-- Lines about text by lines, Written and Comments about the output.
--
-- Samples has concrete objects, an in-memory cluster, and the theorems at work on them.
--
-- Loops are structural recursion on the lists that the code ranges over, so no fuel is needed;
-- those of QuorumExecutor, which wait, are steps of a relation; only the digits of a number are
-- printed on fuel, one more than the number itself. Logging is left out. Numbers that the program
-- only passes along are unbounded.
--
-- Not modelled: internal/util/hash.go and generic.go (a hash of k8s.io/kubernetes, reflection),
-- the registration of types in the scheme and the parsing of flags and the logging of the commands
-- (start-up), Create of api.go, which nothing calls, generated code, charts and test helpers.
pub mod Prelude
pub mod Result
pub mod StringMap
pub mod Kube
pub mod Api
pub mod Status
pub mod Resources
pub mod Client
pub mod Scheduling
pub mod Broadcast
pub mod Reconcile
pub mod Lifecycle
pub mod Manager
pub mod Quorum
pub mod Ctl
pub mod Samples
