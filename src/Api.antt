-- ===== src/Api.antt =====
-- api/v1: the custom resources and their condition types and reasons.
use daemonjob.Prelude.{ℕ, ℤ, String, List, Option}
use daemonjob.StringMap.{StringMap}
use daemonjob.Kube.{TypeMeta, ObjectMeta, Affinity, Toleration, JobSpec, CronJobSpec, Condition}

pub record BroadcastJobSpec (X : Type 0) : Type 0 where
  pub affinity : Option (Affinity X)
  pub image_pull_secrets : List X
  pub node_name : String
  pub node_selector : Option StringMap
  pub preemption_policy : Option String
  pub priority : Option ℤ
  pub priority_class_name : String
  pub resources : Option X
  pub scheduler_name : String
  pub tolerations : List Toleration
  pub topology_spread_constraints : List X

-- DaemonJobTemplateMeta, DaemonCronJobTemplateMeta and DaemonCronJobSetTemplateMeta
pub record TemplateMeta : Type 0 where
  pub labels : Option StringMap
  pub annotations : Option StringMap

pub record DaemonJobTemplateSpec (X : Type 0) : Type 0 where
  pub metadata : TemplateMeta
  pub spec : JobSpec X

pub record DaemonJobSpec (X : Type 0) : Type 0 where
  pub job_template : DaemonJobTemplateSpec X
  pub node_selector : Option StringMap
  pub broadcast_job_spec : BroadcastJobSpec X

pub record DaemonJobStatus : Type 0 where
  pub conditions : List Condition
  pub state : String

pub record DaemonJob (X : Type 0) : Type 0 where
  pub type_meta : TypeMeta
  pub metadata : ObjectMeta X
  pub spec : DaemonJobSpec X
  pub status : DaemonJobStatus

-- DaemonCronJobTemplateSpec and DaemonCronJobSetTemplateSpec
pub record CronJobTemplateSpec (X : Type 0) : Type 0 where
  pub metadata : TemplateMeta
  pub spec : CronJobSpec X

pub record DaemonCronJobSpec (X : Type 0) : Type 0 where
  pub cron_job_template : CronJobTemplateSpec X
  pub node_selector : Option StringMap
  pub broadcast_job_spec : BroadcastJobSpec X

pub record DaemonCronJob (X : Type 0) : Type 0 where
  pub type_meta : TypeMeta
  pub metadata : ObjectMeta X
  pub spec : DaemonCronJobSpec X
  pub conditions : List Condition

pub record DaemonCronJobSetSpec (X : Type 0) : Type 0 where
  pub cron_job_template : CronJobTemplateSpec X
  pub node_selector : Option StringMap

pub record DaemonCronJobSetStatus : Type 0 where
  pub conditions : List Condition
  pub desired : ℕ
  pub available : ℕ

pub record DaemonCronJobSet (X : Type 0) : Type 0 where
  pub type_meta : TypeMeta
  pub metadata : ObjectMeta X
  pub spec : DaemonCronJobSetSpec X
  pub status : DaemonCronJobSetStatus
