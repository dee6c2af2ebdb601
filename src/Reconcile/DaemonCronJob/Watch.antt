-- ===== src/Reconcile/DaemonCronJob/Watch.antt =====
-- The watch on nodes of the reconciler of a DaemonCronJob: the requests that the deletion of a node
-- leads to. An error of the list is logged and leads to none.
use daemonjob.Prelude.{String, not, List, [], map, delete_func}
use daemonjob.Result.{Result, ok, err}
use daemonjob.Kube.{Job}
use daemonjob.Resources.Constants.{label_daemon_cron_job_name}
use daemonjob.Client
use daemonjob.Client.{Client, Call, pure, ◌>>=◌}
use daemonjob.Client.Selectors.{worker_jobs_by_node}
use daemonjob.Reconcile.Watches.{Request, has_owner, owner_requests}

module _ {X W E : Type 0} (c : Client X W E) where
  unfoldable pub daemon_cron_job_worker_jobs_by_node : String → Call W E (List (Job X))
  daemon_cron_job_worker_jobs_by_node node = do
    jobs ← c.list Client.job (worker_jobs_by_node node)
    pure (delete_func (λ j. not (has_owner label_daemon_cron_job_name j.metadata)) jobs)

  abbrev pub cron_requests_of : Result E (List (Job X)) × W → List Request × W
  cron_requests_of (ok jobs, w) =
      (owner_requests label_daemon_cron_job_name (map (λ j. j.metadata) jobs), w)
  cron_requests_of (err e, w) = ([], w)

  unfoldable pub cron_node_deleted : String → W → List Request × W
  cron_node_deleted node w = cron_requests_of (daemon_cron_job_worker_jobs_by_node node w)
