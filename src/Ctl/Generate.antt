-- ===== src/Ctl/Generate.antt =====
-- internal/daemonjobctl/generate.go: the resources for a manifest. A CronJob that cannot be built
-- makes the whole run panic.
use daemonjob.Prelude.{
  String, ◌<>◌, List, [], ◌∷◌, ◌++◌, map, Outcome, panicked, returned, Bool, true, false,
}
use daemonjob.Result.{Result, ok, err}
use daemonjob.Kube.{CronJob}
use daemonjob.Api.{DaemonJobSpec, DaemonJob, DaemonCronJob, DaemonCronJobSet}
use daemonjob.Resources.DaemonJob
use daemonjob.Resources.DaemonJob.{DaemonJobBroadcastArgs}
use daemonjob.Resources.DaemonCronJob
use daemonjob.Resources.DaemonCronJob.{DaemonCronJobBroadcastArgs}
use daemonjob.Resources.DaemonCronJobSet.{new_cron_job_for_node}
use daemonjob.Broadcast.Config.{Config}
use daemonjob.Broadcast.Worker.{build_worker_job}
use daemonjob.Ctl.Resource.{
  ApiObject, AnnotatedResource, WriteResult, placeholder_uid, service_account, cluster_role_binding,
  job, cron_job, daemon_job, daemon_cron_job, daemon_cron_job_set, unstructured,
}
use daemonjob.Ctl.Manifest.{
  Yaml, Manifest, GenerateError, decode_yaml, marshal_doc, parse_manifest, check,
}

module _ {X : Type 0} where
  -- The last two arguments are the cluster role and the image.
  abbrev pub args_of : DaemonJob X → String → String → DaemonJobBroadcastArgs X
  args_of d role image = record { daemon_job = d; cluster_role_name = role; image = image }

  abbrev pub cron_args_of : DaemonCronJob X → String → String → DaemonCronJobBroadcastArgs X
  cron_args_of d role image = record {
    daemon_cron_job = d;
    cluster_role_name = role;
    image = image;
  }

  abbrev pub preview_config : DaemonJobBroadcastArgs X → Config
  preview_config a = record {
    self_name = DaemonJob.job_name a;
    namespace = a.daemon_job.metadata.namespace;
    daemon_job_name = a.daemon_job.metadata.name;
    daemon_cron_job_name = "";
    controller_uid = placeholder_uid;
  }

  abbrev pub cron_preview_config : DaemonCronJobBroadcastArgs X → Config
  cron_preview_config a = record {
    self_name = DaemonCronJob.job_name a;
    namespace = a.daemon_cron_job.metadata.namespace;
    daemon_job_name = "";
    daemon_cron_job_name = a.daemon_cron_job.metadata.name;
    controller_uid = placeholder_uid;
  }

module _ {X U : Type 0} where
  abbrev annotated : String → ApiObject X U → AnnotatedResource X U
  annotated comment object = record { comment = comment; object = object }

  -- for _, node := range nodes: the worker Jobs
  unfoldable pub simulate : Config → DaemonJobSpec X → List String → List (AnnotatedResource X U)
  simulate cfg spec nodes =
      map (λ node. annotated ("node: " <> node) (job (build_worker_job cfg node spec))) nodes

  unfoldable pub generate_daemon_job :
      DaemonJob X → List String → (image role : String) → WriteResult X U
  unfolding simulate DaemonJob.resource_name
  generate_daemon_job d nodes image role =
      let args = args_of d role image in
      record {
        header =
            "Input: DaemonJob/"
            <> (d.metadata.name <> (" (namespace: " <> (d.metadata.namespace <> ")")));
        direct =
            annotated ("Source Custom Resource: DaemonJob/" <> d.metadata.name) (daemon_job d)
            ∷ annotated "ServiceAccount for the broadcast Job"
                (service_account (DaemonJob.service_account args))
            ∷ annotated "ClusterRoleBinding for the broadcast Job"
                (cluster_role_binding (DaemonJob.cluster_role_binding args))
            ∷ annotated "Broadcast Job: spawns one worker Job per node at runtime"
                (job (DaemonJob.job args))
            ∷ [];
        simulated = simulate (preview_config args) d.spec nodes;
      }

  -- With the CronJob and the DaemonCronJob as CronJob leaves it: the source is printed, and the
  -- workers are built, after that call.
  abbrev pub cron_result :
      DaemonCronJobBroadcastArgs X → List String → CronJob X → DaemonCronJob X → WriteResult X U
  cron_result args nodes c d = record {
    header =
        "Input: DaemonCronJob/"
        <> (d.metadata.name <> (" (namespace: " <> (d.metadata.namespace <> ")")));
    direct =
        annotated ("Source Custom Resource: DaemonCronJob/" <> d.metadata.name) (daemon_cron_job d)
        ∷ annotated "ServiceAccount for the broadcast CronJob"
            (service_account (DaemonCronJob.service_account args))
        ∷ annotated "ClusterRoleBinding for the broadcast CronJob"
            (cluster_role_binding (DaemonCronJob.cluster_role_binding args))
        ∷ annotated
            "Broadcast CronJob: on each trigger spawns a broadcast Job which creates per-node worker Jobs"
            (cron_job c)
        ∷ [];
    simulated =
        simulate (cron_preview_config (record args { daemon_cron_job = d }))
          (DaemonCronJob.as_daemon_job (record args { daemon_cron_job = d })).spec nodes;
  }

  abbrev pub with_cron_job :
      DaemonCronJobBroadcastArgs X
      → List String
      → Outcome (CronJob X × DaemonCronJob X)
      → Outcome (WriteResult X U)
  with_cron_job args nodes panicked = panicked
  with_cron_job args nodes (returned (c, d)) = returned (cron_result args nodes c d)

  unfoldable pub generate_daemon_cron_job :
      DaemonCronJob X → List String → (image role : String) → Outcome (WriteResult X U)
  unfolding DaemonCronJob.cron_job simulate
  generate_daemon_cron_job d nodes image role =
      let args = cron_args_of d role image in with_cron_job args nodes (DaemonCronJob.cron_job args)

  unfoldable pub generate_daemon_cron_job_set : DaemonCronJobSet X → List String → WriteResult X U
  generate_daemon_cron_job_set d nodes = record {
    header =
        "Input: DaemonCronJobSet/"
        <> (d.metadata.name <> (" (namespace: " <> (d.metadata.namespace <> ")")));
    direct =
        annotated ("Source Custom Resource: DaemonCronJobSet/" <> d.metadata.name)
          (daemon_cron_job_set d)
        ∷ map
            (λ node.
              annotated ("CronJob for node: " <> node) (cron_job (new_cron_job_for_node d node)))
            nodes;
    simulated = [];
  }

  abbrev pub no_result : WriteResult X U
  no_result = record { header = ""; direct = []; simulated = [] }

  -- combinedResult, which takes no header
  abbrev pub combine : WriteResult X U → WriteResult X U → WriteResult X U
  combine sum r = record sum {
    direct = sum.direct ++ r.direct;
    simulated = sum.simulated ++ r.simulated;
  }

-- A panic or an error ends the run; a result goes on.
abbrev pub next_sum :
    {A F : Type 0} → (A → Outcome (Result F A)) → Outcome (Result F A) → Outcome (Result F A)
next_sum k panicked = panicked
next_sum k (returned (err e)) = returned (err e)
next_sum k (returned (ok a)) = k a

abbrev pub ok_of : {A F : Type 0} → Outcome A → Outcome (Result F A)
ok_of panicked = panicked
ok_of (returned a) = returned (ok a)

-- An empty document is skipped; the resources for any other are added to the result so far.
abbrev pub next_document :
    {X U F : Type 0}
    → Bool
    → WriteResult X U
    → Outcome (Result F (WriteResult X U))
    → (WriteResult X U → Outcome (Result F (WriteResult X U)))
    → Outcome (Result F (WriteResult X U))
next_document true sum o k = k sum
next_document false sum o k = next_sum (λ r. k (combine sum r)) o

module _ {D X U E : Type 0} (y : Yaml D X U E) (nodes : List String) (image role : String) where
  -- The switch over the type of the manifest
  unfoldable pub generate_manifest : Manifest X U → Outcome (WriteResult X U)
  generate_manifest (Manifest.daemon_job d) = returned (generate_daemon_job d nodes image role)
  generate_manifest (Manifest.daemon_cron_job d) = generate_daemon_cron_job d nodes image role
  generate_manifest (Manifest.daemon_cron_job_set d) =
      returned (generate_daemon_cron_job_set d nodes)
  generate_manifest (Manifest.unstructured u) = returned (record (no_result {X = X}) {
    direct =
        annotated ("Pass-through: " <> (y.get_kind u <> ("/" <> y.get_name u))) (unstructured u)
        ∷ [];
  })

  -- One document of the input: its bytes, its manifest, and the resources for it
  abbrev pub generate_parsed :
      Result (GenerateError E) (Manifest X U) → Outcome (Result (GenerateError E) (WriteResult X U))
  generate_parsed (err e) = returned (err e)
  generate_parsed (ok m) = ok_of (generate_manifest m)

  unfoldable pub generate_document : D → Outcome (Result (GenerateError E) (WriteResult X U))
  generate_document doc =
      generate_parsed (check marshal_doc (y.marshal doc) λ raw. parse_manifest y raw)

  -- The loop over the documents, with the result so far. `docs` is what the decoder returns up to
  -- the end of the input.
  unfoldable pub generate_from :
      WriteResult X U → List (Result E D) → Outcome (Result (GenerateError E) (WriteResult X U))
  generate_from sum [] = returned (ok sum)
  generate_from sum (err e ∷ docs) = returned (err (decode_yaml e))
  generate_from sum (ok doc ∷ docs) =
      next_document (y.is_empty doc) sum (generate_document doc) (λ r. generate_from r docs)

  unfoldable pub generate : List (Result E D) → Outcome (Result (GenerateError E) (WriteResult X U))
  unfolding generate_from
  generate docs = generate_from no_result docs
