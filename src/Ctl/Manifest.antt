-- ===== src/Ctl/Manifest.antt =====
-- internal/daemonjobctl/generate.go, parseManifest. The functions of sigs.k8s.io/yaml and of the
-- decoder of k8s.io/apimachinery are a parameter.
use daemonjob.Prelude.{String, Bool, ◌==◌, if◌then◌else◌}
use daemonjob.Result.{Result, ok, err}
use daemonjob.Kube.{ObjectMeta}
use daemonjob.Api.{DaemonJob, DaemonCronJob, DaemonCronJobSet}
use daemonjob.Ctl.Resource.{kind_daemon_job, kind_daemon_cron_job, kind_daemon_cron_job_set}

abbrev pub default_namespace : String
default_namespace = "default"

-- `D` is a decoded document (map[string]any) and `E` an error of the YAML library.
pub record Yaml (D X U E : Type 0) : Type 0 where
  pub is_empty : D → Bool
  pub marshal : D → Result E String
  pub read_kind : String → Result E String
  pub read_daemon_job : String → Result E (DaemonJob X)
  pub read_daemon_cron_job : String → Result E (DaemonCronJob X)
  pub read_daemon_cron_job_set : String → Result E (DaemonCronJobSet X)
  pub read_unstructured : String → Result E U
  pub get_kind : U → String
  pub get_name : U → String

pub data Manifest (X U : Type 0) : Type 0 where
  daemon_job : DaemonJob X → Manifest X U
  daemon_cron_job : DaemonCronJob X → Manifest X U
  daemon_cron_job_set : DaemonCronJobSet X → Manifest X U
  unstructured : U → Manifest X U

-- The contexts that Generate and parseManifest add to an error.
pub data GenerateError (E : Type 0) : Type 0 where
  decode_yaml marshal_doc parse_kind : E → GenerateError E
  parse_daemon_job parse_daemon_cron_job parse_daemon_cron_job_set : E → GenerateError E
  parse_unstructured : E → GenerateError E

module _ {E F A B : Type 0} where
  -- if err != nil { return nil, fmt.Errorf("...: %w", err) }, and what follows it
  abbrev pub check : (E → F) → Result E A → (A → Result F B) → Result F B
  check f (ok a) k = k a
  check f (err e) k = err (f e)

module _ {X : Type 0} where
  -- if obj.Namespace == "" { obj.Namespace = DefaultNamespace }
  abbrev pub with_namespace : ObjectMeta X → ObjectMeta X
  with_namespace m = record m {
    namespace = if m.namespace == "" then default_namespace else m.namespace;
  }

module _ {D X U E : Type 0} (y : Yaml D X U E) where
  unfoldable pub parse_manifest : String → Result (GenerateError E) (Manifest X U)
  parse_manifest raw = check parse_kind (y.read_kind raw) λ kind.
      if kind == kind_daemon_job
      then check parse_daemon_job (y.read_daemon_job raw)
          (λ d. ok (daemon_job (record d { metadata = with_namespace d.metadata })))
      else if kind == kind_daemon_cron_job
      then check parse_daemon_cron_job (y.read_daemon_cron_job raw)
          (λ d. ok (daemon_cron_job (record d { metadata = with_namespace d.metadata })))
      else if kind == kind_daemon_cron_job_set
      then check parse_daemon_cron_job_set (y.read_daemon_cron_job_set raw)
          (λ d. ok (daemon_cron_job_set (record d { metadata = with_namespace d.metadata })))
      else check parse_unstructured (y.read_unstructured raw) (λ u. ok (unstructured u))
