-- ===== src/Lifecycle.antt =====
-- The controller, the broadcast that it starts, and the controller again: the Job that the reconciler
-- of a DaemonJob applies, run by cmd/broadcast in its pod, and what comes back to the reconciler.
use daemonjob.Prelude.{String, Bool, false, ◌==◌, ◌≡◌, refl, subst, List, [], ◌∷◌, All}
use daemonjob.StringMap.{Selects}
use daemonjob.Result.{Result, ok, err}
use daemonjob.Kube.{Job, Node, OwnerReference}
use daemonjob.Api.{DaemonJob}
use daemonjob.Resources.DaemonJob.{job, or_empty}
use daemonjob.Client
use daemonjob.Client.{Client}
use daemonjob.Client.Laws.{IsStored}
use daemonjob.Client.Selectors.{daemon_job_worker_jobs}
use daemonjob.Broadcast.Config.{Config, load_config_from_env}
use daemonjob.Broadcast.Worker.{build_worker_job}
use daemonjob.Broadcast.Worker.Labels.{build_worker_job-selected}
use daemonjob.Broadcast.Runner.{
  RunError, node_list_options, fetch_spec, find_nodes, build_jobs, run,
}
use daemonjob.Broadcast.Main.{Exit, new_runner, run_text, broadcast_main}
use daemonjob.Broadcast.Main.Exits.{
  Exits, unconfigured, unconnected, broken, completed, fails, succeeds, broadcast_main-Exits,
}
use daemonjob.Broadcast.Pod.{PodFields, pod_env, runtime_config, load_runtime}
use daemonjob.Reconcile.DaemonJob.{DaemonJobReconciler, broadcast_args}
use daemonjob.Reconcile.DaemonJob.Watch.{job_requests, job_requests-build_worker_job}
use daemonjob.Reconcile.DaemonJob.Converge.{owned_job}

-- A Job that the reconciler of a DaemonJob finds by its selector, and that wakes it when it changes
pub record Reports {X : Type 0} (d : DaemonJob X) (j : Job X) : Type 0 where
  pub selected :
      Selects
        (daemon_job_worker_jobs d.metadata.namespace d.metadata.name).selector
        (or_empty j.metadata.labels)
  pub here : j.metadata.namespace ≡ d.metadata.namespace
  pub wakes :
      job_requests j ≡ record { namespace = d.metadata.namespace; name = d.metadata.name } ∷ []

module _ {X W E K C : Type 0} (kube_config : Result K C) (new_client : C → Result K (Client X W E))
    (kube_text : K → String) (api_text : E → String) (trim_space : String → String)
    (writable : Bool) (Stored : W → Job X → Type 0) (c : Client X W E) (r : DaemonJobReconciler)
    (d : DaemonJob X) (uid : String) where
  abbrev config : Config
  config = runtime_config (broadcast_args r d) uid

  abbrev workers : List Node → List (Job X)
  workers nodes = build_jobs c config d.spec nodes

  -- How the broadcast of a DaemonJob ends, for the nodes that it lists
  pub data Broadcasts (nodes : List Node) (w : W) : Exit × W → Type 0 where
    deployed :
        (w' : W)
        → All (Stored w') (workers nodes)
        → All (Reports d) (workers nodes)
        → Broadcasts nodes w (succeeds, w')
    stopped :
        (e : RunError E) (w' : W)
        → run c config w ≡ (err e, w')
        → Broadcasts nodes w (fails trim_space writable (run_text kube_text api_text e), w')

  worker-Reports :
      (node : String)
      → (d.metadata.name == "") ≡ false
      → Reports d (build_worker_job config node d.spec)
  unfolding build_worker_job
  worker-Reports node named = record {
    selected =
        (build_worker_job-selected config node d.spec d.metadata.namespace d.metadata.name named).1
          refl;
    here = refl;
    wakes = job_requests-build_worker_job config node d.spec named;
  }

  workers-Reports :
      (nodes : List Node) → (d.metadata.name == "") ≡ false → All (Reports d) (workers nodes)
  workers-Reports [] named = tt
  workers-Reports (n ∷ nodes) named = (worker-Reports n.name named, workers-Reports nodes named)

  fetch_spec-read :
      (w w1 : W)
      → (d.metadata.name == "") ≡ false
      → c.get Client.daemon_job d.metadata.namespace d.metadata.name w ≡ (ok d, w1)
      → fetch_spec c config w ≡ (ok d.spec, w1)
  unfolding fetch_spec
  fetch_spec-read w w1 named got = rw (named) (rw (got) refl)

  find_nodes-read :
      (w w1 : W) (nodes : List Node)
      → c.list Client.node (node_list_options d.spec.node_selector) w ≡ (ok nodes, w1)
      → find_nodes c config d.spec w ≡ (ok nodes, w1)
  find_nodes-read w w1 nodes listed = rw (listed) refl

  Exits-Broadcasts :
      (getenv : String → String) (nodes : List Node) (w w1 w2 : W) (x : Exit × W)
      → (d.metadata.name == "") ≡ false
      → load_config_from_env getenv ≡ ok config
      → new_runner kube_config new_client ≡ ok c
      → fetch_spec c config w ≡ (ok d.spec, w1)
      → find_nodes c config d.spec w1 ≡ (ok nodes, w2)
      → Exits kube_config new_client kube_text api_text trim_space writable Stored getenv w x
      → Broadcasts nodes w x
  Exits-Broadcasts getenv nodes w w1 w2 x named loaded made fetched found (unconfigured e p) = cc
  Exits-Broadcasts getenv nodes w w1 w2 x named loaded made fetched found (unconnected cfg e p q) =
      cc
  Exits-Broadcasts getenv nodes w w1 w2 x named loaded made fetched found
        (broken cfg c' e w' p q h) =
      stopped e w' cc
  Exits-Broadcasts getenv nodes w w1 w2 x named loaded made fetched found
        (completed cfg c' spec' nodes' w1' w2' w' p q fetched' found' all) =
      let same_config : cfg ≡ config = cc in
      let same_spec : spec' ≡ d.spec = cc in
      let same_nodes : nodes' ≡ nodes = cc in
      deployed w'
        (subst (λ js. All (Stored w') js)
          (λ i. build_jobs c (same_config i) (same_spec i) (same_nodes i)) all)
        (workers-Reports nodes named)

  -- A DaemonJob with a name and a namespace, and the Job that its reconcile has created for it: in the
  -- pod of that Job, where the connection can be made, the DaemonJob is read and the nodes are listed,
  -- the broadcast process either exits with 1 and the text of the error of its run, or exits with 0.
  -- Then the worker Job of each listed node is in the cluster, and each of them is found by the
  -- selector by which the reconciler lists the workers of this DaemonJob, in its namespace, and leads
  -- to one request for this DaemonJob when it changes.
  pub broadcast_main-Broadcasts :
      (owners : Job X → List OwnerReference) (field : String → String) (nodes : List Node)
      (w w1 w2 : W)
      → ((c' : Client X W E) → new_runner kube_config new_client ≡ ok c' → IsStored c' Stored)
      → new_runner kube_config new_client ≡ ok c
      → (d.metadata.namespace == "") ≡ false
      → (d.metadata.name == "") ≡ false
      → PodFields (owned_job owners (job (broadcast_args r d))) uid field
      → c.get Client.daemon_job d.metadata.namespace d.metadata.name w ≡ (ok d, w1)
      → c.list Client.node (node_list_options d.spec.node_selector) w1 ≡ (ok nodes, w2)
      → Broadcasts nodes w (
          broadcast_main kube_config new_client kube_text api_text trim_space writable
            (pod_env (owned_job owners (job (broadcast_args r d))) field)
            w)
  broadcast_main-Broadcasts owners field nodes w w1 w2 laws made in_namespace named fields got
        listed =
      let getenv = pod_env (owned_job owners (job (broadcast_args r d))) field in
      Exits-Broadcasts getenv nodes w w1 w2
        (broadcast_main kube_config new_client kube_text api_text trim_space writable getenv w)
        named
        (load_runtime (broadcast_args r d) uid field
          (record {
            job_name = fields.job_name;
            controller_uid = fields.controller_uid;
            namespace = fields.namespace;
            label = fields.label;
          })
          in_namespace named)
        made (fetch_spec-read w w1 named got) (find_nodes-read w1 w2 nodes listed)
        (broadcast_main-Exits kube_config new_client kube_text api_text trim_space writable Stored
          getenv w laws)
