-- ===== src/Kube/Pods.antt =====
-- metav1.ObjectMeta, corev1.PodSpec and what hangs below it.
use daemonjob.Prelude.{ℕ, ℤ, String, Bool, List, Option}
use daemonjob.StringMap.{StringMap}

pub record TypeMeta : Type 0 where
  pub api_version : String
  pub kind : String

pub record OwnerReference : Type 0 where
  pub api_version : String
  pub kind : String
  pub name : String
  pub uid : String
  pub controller : Option Bool
  pub block_owner_deletion : Option Bool

-- `deletion_timestamp` is `none` where IsZero holds.
pub record ObjectMeta (X : Type 0) : Type 0 where
  pub name : String
  pub namespace : String
  pub labels : Option StringMap
  pub annotations : Option StringMap
  pub owner_references : List OwnerReference
  pub finalizers : List String
  pub deletion_timestamp : Option ℕ
  pub other : Option X

pub record Toleration : Type 0 where
  pub key : String
  pub operator : String
  pub value : String
  pub effect : String
  pub toleration_seconds : Option ℤ

pub record NodeSelectorRequirement : Type 0 where
  pub key : String
  pub operator : String
  pub values : List String

pub record NodeSelectorTerm : Type 0 where
  pub match_expressions : List NodeSelectorRequirement
  pub match_fields : List NodeSelectorRequirement

pub record NodeSelector : Type 0 where
  pub node_selector_terms : List NodeSelectorTerm

-- `required` is RequiredDuringSchedulingIgnoredDuringExecution, `preferred` the other field.
pub record NodeAffinity (X : Type 0) : Type 0 where
  pub required : Option NodeSelector
  pub preferred : List X

pub record Affinity (X : Type 0) : Type 0 where
  pub node_affinity : Option (NodeAffinity X)
  pub pod_affinity : Option X
  pub pod_anti_affinity : Option X

-- `field_path` is ValueFrom.FieldRef.FieldPath.
pub record EnvVar (X : Type 0) : Type 0 where
  pub name : String
  pub field_path : Option String
  pub other : Option X

pub record VolumeMount (X : Type 0) : Type 0 where
  pub name : String
  pub mount_path : String
  pub other : Option X

-- `drop` is Capabilities.Drop.
pub record SecurityContext (X : Type 0) : Type 0 where
  pub allow_privilege_escalation : Option Bool
  pub read_only_root_filesystem : Option Bool
  pub drop : List String
  pub other : Option X

pub record Container (X : Type 0) : Type 0 where
  pub name : String
  pub image : String
  pub command : List String
  pub env : List (EnvVar X)
  pub resources : Option X
  pub volume_mounts : List (VolumeMount X)
  pub security_context : Option (SecurityContext X)
  pub other : Option X

-- `empty_dir` tells that the volume's source is an EmptyDir.
pub record Volume (X : Type 0) : Type 0 where
  pub name : String
  pub empty_dir : Bool
  pub other : Option X

-- `seccomp_profile` is SeccompProfile.Type.
pub record PodSecurityContext (X : Type 0) : Type 0 where
  pub run_as_non_root : Option Bool
  pub seccomp_profile : Option String
  pub other : Option X

pub record PodSpec (X : Type 0) : Type 0 where
  pub restart_policy : String
  pub service_account_name : String
  pub security_context : Option (PodSecurityContext X)
  pub affinity : Option (Affinity X)
  pub image_pull_secrets : List X
  pub node_name : String
  pub node_selector : Option StringMap
  pub preemption_policy : Option String
  pub priority : Option ℤ
  pub priority_class_name : String
  pub scheduler_name : String
  pub tolerations : List Toleration
  pub topology_spread_constraints : List X
  pub volumes : List (Volume X)
  pub containers : List (Container X)
  pub other : Option X

pub record PodTemplateSpec (X : Type 0) : Type 0 where
  pub labels : Option StringMap
  pub annotations : Option StringMap
  pub other : Option X
  pub spec : PodSpec X
