-- ===== src/Resources/Constants.antt =====
-- Label keys, environment variables and suffixes; the labels that every object gets.
use daemonjob.Prelude.{String, ◌<>◌, none, []}
use daemonjob.StringMap.{StringMap, empty, insert}
use daemonjob.Kube.{TypeMeta, ObjectMeta}

abbrev pub label_role : String
label_role = "daemonjob.berquerant.github.io/role"

abbrev pub role_worker : String
role_worker = "worker"

abbrev pub role_broadcast : String
role_broadcast = "broadcast"

abbrev pub label_daemon_job_name : String
label_daemon_job_name = "daemonjob.berquerant.github.io/daemonjob-name"

abbrev pub label_daemon_cron_job_name : String
label_daemon_cron_job_name = "daemonjob.berquerant.github.io/daemoncronjob-name"

abbrev pub label_daemon_cron_job_set_name : String
label_daemon_cron_job_set_name = "daemonjob.berquerant.github.io/daemoncronjobset-name"

abbrev pub label_node : String
label_node = "daemonjob.berquerant.github.io/node"

abbrev pub label_namespace : String
label_namespace = "daemonjob.berquerant.github.io/namespace"

abbrev pub label_name : String
label_name = "app.kubernetes.io/name"

abbrev pub label_managed_by : String
label_managed_by = "app.kubernetes.io/managed-by"

abbrev pub label_instance : String
label_instance = "app.kubernetes.io/instance"

abbrev pub label_component : String
label_component = "app.kubernetes.io/component"

abbrev pub env_self_name : String
env_self_name = "SELF_NAME"

abbrev pub env_namespace : String
env_namespace = "NAMESPACE"

abbrev pub env_daemon_job_name : String
env_daemon_job_name = "DAEMON_JOB_NAME"

abbrev pub env_daemon_cron_job_name : String
env_daemon_cron_job_name = "DAEMON_CRONJOB_NAME"

abbrev pub env_controller_uid : String
env_controller_uid = "CONTROLLER_UID"

abbrev pub broadcast_container_name : String
broadcast_container_name = "broadcast"

abbrev pub daemon_job_suffix : String
daemon_job_suffix = "dj"

abbrev pub daemon_cron_job_suffix : String
daemon_cron_job_suffix = "dcj"

abbrev pub daemon_cron_job_set_suffix : String
daemon_cron_job_set_suffix = "dcjs"

-- util.CommonLabels
unfoldable pub common_labels : StringMap
common_labels = insert (insert empty label_name "daemonjob") label_managed_by "daemonjob-controller"

-- A new object: the builders leave the type unset.
abbrev pub zero_type_meta : TypeMeta
zero_type_meta = record { api_version = ""; kind = "" }

abbrev pub zero_meta : {X : Type 0} → ObjectMeta X
zero_meta = record {
  name = "";
  namespace = "";
  labels = none;
  annotations = none;
  owner_references = [];
  finalizers = [];
  deletion_timestamp = none;
  other = none;
}

-- fmt.Sprintf("metadata.labels['%s']", key)
abbrev pub label_field_path : String → String
label_field_path key = "metadata.labels['" <> (key <> "']")
