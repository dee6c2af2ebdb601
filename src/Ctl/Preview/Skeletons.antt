-- ===== src/Ctl/Preview/Skeletons.antt =====
-- The skeletons as input of the preview.
use daemonjob.Prelude.{suc, String, ◌≡◌, ap, sym, ◌∙◌, inl, inr, List, length, length-map, returned}
use daemonjob.Resources.DaemonCronJob.{DaemonCronJobBroadcastArgs}
use daemonjob.Ctl.Resource.{WriteResult}
use daemonjob.Ctl.Skeleton.{
  daemon_job_skeleton, daemon_cron_job_skeleton, daemon_cron_job_set_skeleton,
}
use daemonjob.Ctl.Generate.{
  simulate, cron_args_of, generate_daemon_job, generate_daemon_cron_job,
  generate_daemon_cron_job_set,
}
use daemonjob.Ctl.Preview.Cron.{generate_daemon_cron_job-Previews, Previews}

pub length-simulated :
    {X U : Type 0} (a : DaemonCronJobBroadcastArgs X) (nodes : List String) (r : WriteResult X U)
    → Previews a nodes r
    → length r.simulated ≡ length nodes
length-simulated a nodes r h =
    sym (length-map r.simulated (λ r. r.object)) ∙ (ap length h.simulated ∙ length-map nodes _)

-- The skeletons that the tool prints are fit for its own preview, for any nodes: those of a DaemonJob
-- and of a DaemonCronJob give one simulated worker per node, without a panic, and that of a
-- DaemonCronJobSet one CronJob per node beside itself.
pub skeletons_previewed :
    {X U : Type 0} (nodes : List String) (image role : String)
    → (length (generate_daemon_job {X = X} {U = U} daemon_job_skeleton nodes image role).simulated
        ≡ length nodes)
      × ((r : WriteResult X U) × (generate_daemon_cron_job daemon_cron_job_skeleton nodes image role
            ≡ returned r)
          × (length r.simulated ≡ length nodes))
      × (length
            (generate_daemon_cron_job_set {X = X} {U = U} daemon_cron_job_set_skeleton nodes).direct
          ≡ suc (length nodes))
unfolding generate_daemon_job generate_daemon_cron_job_set simulate daemon_cron_job_skeleton
skeletons_previewed {X} {U} nodes image role = (
  length-map nodes _,
  elim (generate_daemon_cron_job-Previews {X = X} {U = U} daemon_cron_job_skeleton nodes image
      role) [
        | inl (e, _) ↦ cc (e)
        | inr (r, e, h) ↦
            (r, e, length-simulated (cron_args_of daemon_cron_job_skeleton role image) nodes r h)
      ],
  ap suc (length-map nodes _),
)
