-- ===== src/Ctl/Resource.antt =====
-- internal/daemonjobctl/output.go and constants.go: the resources that the tool writes, with their
-- comments. `U` is unstructured.Unstructured, an object of any other kind.
use daemonjob.Prelude.{String, List}
use daemonjob.Kube.{TypeMeta, ServiceAccount, ClusterRoleBinding, Job, CronJob}
use daemonjob.Api.{DaemonJob, DaemonCronJob, DaemonCronJobSet}

abbrev pub kind_daemon_job : String
kind_daemon_job = "DaemonJob"

abbrev pub kind_daemon_cron_job : String
kind_daemon_cron_job = "DaemonCronJob"

abbrev pub kind_daemon_cron_job_set : String
kind_daemon_cron_job_set = "DaemonCronJobSet"

-- daemonjobv1.GroupVersion.String()
abbrev pub group_version : String
group_version = "daemonjob.berquerant.github.io/v1"

abbrev pub placeholder_uid : String
placeholder_uid = "00000000-0000-0000-0000-000000000000"

-- The types of client.Object that the tool meets.
pub data ApiObject (X U : Type 0) : Type 0 where
  service_account : ServiceAccount X → ApiObject X U
  cluster_role_binding : ClusterRoleBinding X → ApiObject X U
  job : Job X → ApiObject X U
  cron_job : CronJob X → ApiObject X U
  daemon_job : DaemonJob X → ApiObject X U
  daemon_cron_job : DaemonCronJob X → ApiObject X U
  daemon_cron_job_set : DaemonCronJobSet X → ApiObject X U
  unstructured : U → ApiObject X U

pub record AnnotatedResource (X U : Type 0) : Type 0 where
  pub comment : String
  pub object : ApiObject X U

pub record WriteResult (X U : Type 0) : Type 0 where
  pub header : String
  pub direct : List (AnnotatedResource X U)
  pub simulated : List (AnnotatedResource X U)

abbrev type_of : (api_version kind : String) → TypeMeta
type_of api_version kind = record { api_version = api_version; kind = kind }

module _ {X U : Type 0} where
  unfoldable pub set_type_meta : ApiObject X U → ApiObject X U
  set_type_meta (service_account o) =
      service_account (record o { type_meta = type_of "v1" "ServiceAccount" })
  set_type_meta (cluster_role_binding o) =
      cluster_role_binding
        (record o { type_meta = type_of "rbac.authorization.k8s.io/v1" "ClusterRoleBinding" })
  set_type_meta (job o) = job (record o { type_meta = type_of "batch/v1" "Job" })
  set_type_meta (cron_job o) = cron_job (record o { type_meta = type_of "batch/v1" "CronJob" })
  set_type_meta (daemon_job o) =
      daemon_job (record o { type_meta = type_of group_version kind_daemon_job })
  set_type_meta (daemon_cron_job o) =
      daemon_cron_job (record o { type_meta = type_of group_version kind_daemon_cron_job })
  set_type_meta (daemon_cron_job_set o) =
      daemon_cron_job_set (record o { type_meta = type_of group_version kind_daemon_cron_job_set })
  set_type_meta (unstructured o) = unstructured o
