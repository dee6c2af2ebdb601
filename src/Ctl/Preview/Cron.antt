-- ===== src/Ctl/Preview/Cron.antt =====
-- The preview of a DaemonCronJob.
use daemonjob.Prelude.{
  String, ◌≡◌, refl, ap, ◌⊎◌, inl, inr, none, List, [], ◌∷◌, map, panicked, returned, Option-cases,
}
use daemonjob.StringMap.{StringMap}
use daemonjob.Kube.{CronJob}
use daemonjob.Api.{DaemonCronJob, DaemonJobSpec}
use daemonjob.Resources.DaemonCronJob.{DaemonCronJobBroadcastArgs, cron_job, relabel, as_daemon_job}
use daemonjob.Resources.DaemonCronJob
use daemonjob.Resources.DaemonCronJob.Labels.{cron_job-returns, cron_job-panics}
use daemonjob.Broadcast.Config.{Config}
use daemonjob.Broadcast.Worker.{build_worker_job}
use daemonjob.Broadcast.Runner.{spec_of_cron}
use daemonjob.Ctl.Resource
use daemonjob.Ctl.Resource.{ApiObject, AnnotatedResource, WriteResult, placeholder_uid}
use daemonjob.Ctl.Generate.{
  simulate, cron_preview_config, cron_args_of, cron_result, with_cron_job, generate_daemon_cron_job,
}

module _ {X U : Type 0} where
  abbrev pub objects : List (AnnotatedResource X U) → List (ApiObject X U)
  objects = map (λ r. r.object)

  pub objects_of-simulate :
      (cfg : Config) (spec : DaemonJobSpec X) (nodes : List String)
      → objects (simulate cfg spec nodes)
        ≡ map (λ n. Resource.job (build_worker_job cfg n spec)) nodes
  unfolding simulate
  objects_of-simulate cfg spec [] = refl
  objects_of-simulate cfg spec (n ∷ nodes) =
      ap (◌∷◌ (Resource.job (build_worker_job cfg n spec))) (objects_of-simulate cfg spec nodes)

-- What a preview of a DaemonCronJob shows, where its CronJob could be built.
pub record Previews {X U : Type 0} (a : DaemonCronJobBroadcastArgs X) (nodes : List String)
    (r : WriteResult X U) : Type 0 where
  pub built : CronJob X
  pub source : DaemonCronJob X
  pub from_cron_job : cron_job a ≡ returned (built, source)
  pub direct :
      objects r.direct
      ≡ Resource.daemon_cron_job source
        ∷ Resource.service_account (DaemonCronJob.service_account a)
        ∷ Resource.cluster_role_binding (DaemonCronJob.cluster_role_binding a)
        ∷ Resource.cron_job built
        ∷ []
  pub simulated :
      objects r.simulated
      ≡ map
          (λ n. Resource.job (
            build_worker_job
              (record {
                self_name = built.metadata.name;
                namespace = a.daemon_cron_job.metadata.namespace;
                daemon_job_name = "";
                daemon_cron_job_name = a.daemon_cron_job.metadata.name;
                controller_uid = placeholder_uid;
              })
              n
              (spec_of_cron a.daemon_cron_job)))
          nodes

relabelled-simulate :
    {X U : Type 0} (a : DaemonCronJobBroadcastArgs X) (shared : StringMap) (nodes : List String)
    → let a' = record a { daemon_cron_job = relabel a.daemon_cron_job shared } in
      objects (simulate {U = U} (cron_preview_config a') (as_daemon_job a').spec nodes)
      ≡ map
          (λ n.
            Resource.job
              (build_worker_job (cron_preview_config a) n (spec_of_cron a.daemon_cron_job)))
          nodes
unfolding as_daemon_job spec_of_cron DaemonCronJob.resource_name
relabelled-simulate a shared nodes =
    objects_of-simulate (cron_preview_config a) (spec_of_cron a.daemon_cron_job) nodes

-- A preview of a DaemonCronJob panics where its template has no labels. Otherwise it shows, directly,
-- the DaemonCronJob as the call of CronJob leaves it, its ServiceAccount, its ClusterRoleBinding and
-- that CronJob; and, as simulated, for each node in turn the worker Job that BuildWorkerJob makes
-- from the spec that the broadcast takes from the DaemonCronJob, for a broadcast of the name of that
-- CronJob and of the namespace and the name of the DaemonCronJob, with the placeholder as its UID.
pub generate_daemon_cron_job-Previews :
    {X U : Type 0} (d : DaemonCronJob X) (nodes : List String) (image role : String)
    → ((d.spec.cron_job_template.metadata.labels ≡ none)
        × (generate_daemon_cron_job {U = U} d nodes image role ≡ panicked))
      ⊎ ((r : WriteResult X U) × (generate_daemon_cron_job d nodes image role ≡ returned r)
          × Previews (cron_args_of d role image) nodes r)
unfolding generate_daemon_cron_job DaemonCronJob.resource_name
generate_daemon_cron_job-Previews {U} d nodes image role =
    let a = cron_args_of d role image in
    elim (Option-cases d.spec.cron_job_template.metadata.labels) [
      | inl e ↦ inl (e, ap (with_cron_job a nodes) ((cron_job-panics a).1 e))
      | inr (m, e) ↦
          let (c, d', shared, returns, _, _, _, changed, _, named) = cron_job-returns a m e in
          inr (
            cron_result a nodes c d',
            ap (with_cron_job a nodes) returns,
            record {
              built = c;
              source = d';
              from_cron_job = returns;
              direct = refl;
              simulated = rw (changed, named) (relabelled-simulate a shared nodes);
            },
          )
    ]
