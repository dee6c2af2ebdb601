-- ===== src/Samples/Cluster.antt =====
-- A small cluster in memory.
use daemonjob.Prelude.{ℕ, String, refl, some, List, [], ◌∷◌, ◌==◌, if◌then◌else◌}
use daemonjob.StringMap.{insert, empty}
use daemonjob.Result.{Result, ok, err}
use daemonjob.Kube.{Job, Node, ClusterRoleBinding, JobCondition}
use daemonjob.Status.Verdict.{verdict}
use daemonjob.Resources.Constants.{zero_type_meta, label_node}
use daemonjob.Client.Operations.{FinalizerOps}
use daemonjob.Prelude.{contains}
use daemonjob.Prelude.{delete_func}
use daemonjob.Client
use daemonjob.Client.{Client, Kind, Object, Call}
use daemonjob.Client.Laws.{IsQuiet}
use daemonjob.Samples.{meta, daemon_job, job_spec}

-- The Jobs created and the names of the objects deleted.
pub record World : Type 0 where
  pub jobs : List (Job ℕ)
  pub deleted : List String

abbrev pub a_job : List JobCondition → Job ℕ
a_job conditions = record {
  type_meta = zero_type_meta;
  metadata = record (meta "jobs" "backup-dj-n1") { labels = some (insert empty label_node "n1") };
  spec = job_spec;
  conditions = conditions;
}

abbrev pub condition : String → JobCondition
condition type = record { type = type; status = "True"; reason = "r"; message = "m" }

abbrev pub a_binding : ClusterRoleBinding ℕ
a_binding = record {
  type_meta = zero_type_meta;
  metadata = meta "" "jobs-backup-dj";
  subjects = [];
  role_ref = record { kind = ""; name = ""; api_group = "" };
}

abbrev pub get_object : (k : Kind) → Result String (Object ℕ k)
get_object Client.daemon_job = ok (daemon_job "jobs" "backup")
get_object Client.service_account =
    ok (record { type_meta = zero_type_meta; metadata = meta "jobs" "backup-dj" })
get_object Client.job = ok (a_job (condition "Complete" ∷ []))
get_object Client.daemon_cron_job = err "not found"
get_object Client.daemon_cron_job_set = err "not found"
get_object Client.cluster_role_binding = err "not found"
get_object Client.cron_job = err "not found"
get_object Client.node = err "not found"
get_object Client.pod = err "not found"

abbrev pub a_node : String → Node
a_node name = record { name = name; labels = insert empty "zone" "a" }

abbrev pub list_objects : (k : Kind) → List (Object ℕ k)
list_objects Client.daemon_job = []
list_objects Client.service_account = []
list_objects Client.job = a_job [] ∷ a_job (condition "Failed" ∷ []) ∷ []
list_objects Client.daemon_cron_job = []
list_objects Client.daemon_cron_job_set = []
list_objects Client.cluster_role_binding = a_binding ∷ []
list_objects Client.cron_job = []
list_objects Client.node = a_node "n1" ∷ a_node "n2" ∷ []
list_objects Client.pod = []

-- The quota allows one Job.
abbrev pub store : List (Job ℕ) → Job ℕ → List String → Result String (Unit {0}) × World
store [] j deleted = (ok tt, record { jobs = j ∷ []; deleted = deleted })
store (i ∷ is) j deleted = (err "quota", record { jobs = i ∷ is; deleted = deleted })

abbrev pub create_object : (k : Kind) → Object ℕ k → World → Result String (Unit {0}) × World
create_object Client.job j w = store w.jobs j w.deleted
create_object Client.daemon_job j w = (ok tt, w)
create_object Client.daemon_cron_job j w = (ok tt, w)
create_object Client.daemon_cron_job_set j w = (ok tt, w)
create_object Client.service_account j w = (ok tt, w)
create_object Client.cluster_role_binding j w = (ok tt, w)
create_object Client.cron_job j w = (ok tt, w)
create_object Client.node j w = (ok tt, w)
create_object Client.pod j w = (ok tt, w)

abbrev pub object_name : (k : Kind) → Object ℕ k → String
object_name Client.job j = j.metadata.name
object_name Client.daemon_job j = j.metadata.name
object_name Client.daemon_cron_job j = j.metadata.name
object_name Client.daemon_cron_job_set j = j.metadata.name
object_name Client.service_account j = j.metadata.name
object_name Client.cluster_role_binding j = j.metadata.name
object_name Client.cron_job j = j.metadata.name
object_name Client.node j = j.name
object_name Client.pod j = j.name

-- With what a dry run answers
abbrev pub cluster : Result String (Unit {0}) → Client ℕ World String
cluster verdict = record {
  is_not_found = λ e. e == "not found";
  get = λ k namespace name w. (get_object k, w);
  list = λ k o w. (ok (list_objects k), w);
  create = λ dry k o w. if dry then (verdict, w) else create_object k o w;
  update = λ k o w. (ok o, w);
  update_status = λ k o w. (ok tt, w);
  delete = λ k o w. (ok tt, record { jobs = w.jobs; deleted = object_name k o ∷ w.deleted });
  create_or_update = λ owner k o w. (ok tt, w);
}

pub cluster-IsQuiet : (verdict : Result String (Unit {0})) → IsQuiet (cluster verdict)
cluster-IsQuiet verdict = record {
  get_keeps = λ k namespace name w. refl;
  list_keeps = λ k o w. refl;
  dry_run_keeps = λ k o w. refl;
}

abbrev pub fresh : World
fresh = record { jobs = []; deleted = [] }

abbrev pub finalizers : FinalizerOps ℕ
finalizers = record {
  contains_finalizer = λ m f. contains m.finalizers f;
  add_finalizer = λ m f. record m { finalizers = f ∷ m.finalizers };
  remove_finalizer = λ m f. record m { finalizers = delete_func (λ g. g == f) m.finalizers };
}
