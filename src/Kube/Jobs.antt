-- ===== src/Kube/Jobs.antt =====
-- batchv1, corev1 and rbacv1 objects that the program creates or lists.
use daemonjob.Prelude.{ℤ, String, Bool, List, Option}
use daemonjob.StringMap.{StringMap}
use daemonjob.Kube.Pods.{TypeMeta, ObjectMeta, PodTemplateSpec}

pub record JobSpec (X : Type 0) : Type 0 where
  pub backoff_limit : Option ℤ
  pub selector : Option X
  pub template : PodTemplateSpec X
  pub other : Option X

pub record JobTemplateSpec (X : Type 0) : Type 0 where
  pub labels : Option StringMap
  pub annotations : Option StringMap
  pub other : Option X
  pub spec : JobSpec X

pub record CronJobSpec (X : Type 0) : Type 0 where
  pub schedule : String
  pub time_zone : Option String
  pub starting_deadline_seconds : Option ℤ
  pub concurrency_policy : String
  pub suspend : Option Bool
  pub job_template : JobTemplateSpec X
  pub successful_jobs_history_limit : Option ℤ
  pub failed_jobs_history_limit : Option ℤ

pub record JobCondition : Type 0 where
  pub type : String
  pub status : String
  pub reason : String
  pub message : String

pub record Job (X : Type 0) : Type 0 where
  pub type_meta : TypeMeta
  pub metadata : ObjectMeta X
  pub spec : JobSpec X
  pub conditions : List JobCondition

pub record CronJob (X : Type 0) : Type 0 where
  pub type_meta : TypeMeta
  pub metadata : ObjectMeta X
  pub spec : CronJobSpec X

pub record ServiceAccount (X : Type 0) : Type 0 where
  pub type_meta : TypeMeta
  pub metadata : ObjectMeta X

pub record Subject : Type 0 where
  pub kind : String
  pub name : String
  pub namespace : String

pub record RoleRef : Type 0 where
  pub kind : String
  pub name : String
  pub api_group : String

pub record ClusterRoleBinding (X : Type 0) : Type 0 where
  pub type_meta : TypeMeta
  pub metadata : ObjectMeta X
  pub subjects : List Subject
  pub role_ref : RoleRef

pub record Node : Type 0 where
  pub name : String
  pub labels : StringMap

-- `terminated` is State.Terminated with its exit code and message.
pub record ContainerState : Type 0 where
  pub exit_code : ℤ
  pub message : String

pub record ContainerStatus : Type 0 where
  pub name : String
  pub terminated : Option ContainerState

pub record PodStatus : Type 0 where
  pub container_statuses : List ContainerStatus
  pub init_container_statuses : List ContainerStatus
  pub ephemeral_container_statuses : List ContainerStatus

pub record Pod : Type 0 where
  pub name : String
  pub status : PodStatus

-- metav1.Condition, less its times and generation
pub record Condition : Type 0 where
  pub type : String
  pub status : String
  pub reason : String
  pub message : String
