-- ===== src/Client/Selectors.antt =====
-- internal/controller/api.go: the list options of each List function. An empty namespace lists the
-- whole cluster.
use daemonjob.Prelude.{String}
use daemonjob.StringMap.{StringMap, empty, insert}
use daemonjob.Resources.Constants.{
  label_daemon_job_name, label_daemon_cron_job_name, label_daemon_cron_job_set_name, label_role,
  label_namespace, label_node, role_broadcast, role_worker,
}

pub record ListOptions : Type 0 where
  pub namespace : String
  pub selector : StringMap

abbrev select : String → StringMap → ListOptions
select namespace selector = record { namespace = namespace; selector = selector }

-- The selector of the objects that one broadcast uses.
abbrev pub broadcast_selector : String → String → StringMap
broadcast_selector label name = insert (insert empty label_role role_broadcast) label name

abbrev pub worker_selector : String → String → StringMap
worker_selector label name = insert (insert empty label_role role_worker) label name

unfoldable pub daemon_job_cluster_role_bindings : String → String → ListOptions
daemon_job_cluster_role_bindings namespace name =
    select "" (insert (broadcast_selector label_daemon_job_name name) label_namespace namespace)

unfoldable pub daemon_cron_job_cluster_role_bindings : String → String → ListOptions
daemon_cron_job_cluster_role_bindings namespace name =
    select ""
      (insert (broadcast_selector label_daemon_cron_job_name name) label_namespace namespace)

abbrev pub label_controller_uid : String
label_controller_uid = "batch.kubernetes.io/controller-uid"

unfoldable pub job_pods : String → String → ListOptions
job_pods namespace uid = select namespace (insert empty label_controller_uid uid)

unfoldable pub daemon_job_broadcast_jobs : String → String → ListOptions
daemon_job_broadcast_jobs namespace name =
    select namespace (broadcast_selector label_daemon_job_name name)

unfoldable pub daemon_cron_job_broadcast_cron_jobs : String → String → ListOptions
daemon_cron_job_broadcast_cron_jobs namespace name =
    select namespace (broadcast_selector label_daemon_cron_job_name name)

unfoldable pub daemon_cron_job_set_cron_jobs : String → String → ListOptions
daemon_cron_job_set_cron_jobs namespace name =
    select namespace (worker_selector label_daemon_cron_job_set_name name)

unfoldable pub daemon_job_worker_jobs : String → String → ListOptions
daemon_job_worker_jobs namespace name =
    select namespace (worker_selector label_daemon_job_name name)

unfoldable pub daemon_cron_job_worker_jobs : String → String → ListOptions
daemon_cron_job_worker_jobs namespace name =
    select namespace (worker_selector label_daemon_cron_job_name name)

unfoldable pub worker_jobs_by_node : String → ListOptions
worker_jobs_by_node node = select "" (worker_selector label_node node)

-- ListWorkerCronJobsByNode, and the list in ListDaemonCronJobSetCronJobsByNode
unfoldable pub worker_cron_jobs_by_node : String → ListOptions
worker_cron_jobs_by_node node = select "" (worker_selector label_node node)

unfoldable pub daemon_job_broadcast_service_accounts : String → String → ListOptions
daemon_job_broadcast_service_accounts namespace name =
    select namespace (broadcast_selector label_daemon_job_name name)

unfoldable pub daemon_cron_job_broadcast_service_accounts : String → String → ListOptions
daemon_cron_job_broadcast_service_accounts namespace name =
    select namespace (broadcast_selector label_daemon_cron_job_name name)
