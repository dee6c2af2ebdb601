-- ===== src/Client.antt =====
-- internal/controller/api.go, and the client of controller-runtime that it calls. The client is a
-- record of operations over a state `W` of the cluster: every call may change it, other actors'
-- changes in between included. `E` is the type of the errors that the API server returns.
pub mod Selectors
pub mod Operations
pub mod Laws
use daemonjob.Prelude.{String, Bool, List, Option}
use daemonjob.Result.{Result, ok, err}
use daemonjob.Kube.{ObjectMeta, ServiceAccount, ClusterRoleBinding, Job, CronJob, Node, Pod}
use daemonjob.Api.{DaemonJob, DaemonCronJob, DaemonCronJobSet}
use daemonjob.Client.Selectors.{ListOptions}

-- The kinds of objects that the program gets, lists or writes.
pub data Kind : Type 0 where
  daemon_job daemon_cron_job daemon_cron_job_set : Kind
  service_account cluster_role_binding job cron_job node pod : Kind

abbrev pub Object : Type 0 → Kind → Type 0
Object X daemon_job = DaemonJob X
Object X daemon_cron_job = DaemonCronJob X
Object X daemon_cron_job_set = DaemonCronJobSet X
Object X service_account = ServiceAccount X
Object X cluster_role_binding = ClusterRoleBinding X
Object X job = Job X
Object X cron_job = CronJob X
Object X node = Node
Object X pod = Pod

-- A call: it changes the cluster, and returns a value or an error.
abbrev pub Call : Type 0 → Type 0 → Type 0 → Type 0
Call W E A = W → Result E A × W

module _ {W E : Type 0} where
  abbrev pub pure : {A : Type 0} → A → Call W E A
  pure a w = (ok a, w)

  abbrev pub fail : {A : Type 0} → E → Call W E A
  fail e w = (err e, w)

  abbrev pub continue : {A B : Type 0} → (A → Call W E B) → Result E A × W → Result E B × W
  continue f (ok a, w) = f a w
  continue f (err e, w) = (err e, w)

  infixl 5 ◌>>=◌ ◌>>◌
  abbrev pub ◌>>=◌ : {A B : Type 0} → Call W E A → (A → Call W E B) → Call W E B
  ◌>>=◌ m f w = continue f (m w)

  abbrev pub ◌>>◌ : {A B : Type 0} → Call W E A → Call W E B → Call W E B
  m >> n = m >>= λ _. n

  abbrev pub recover : {F A : Type 0} → (E → F) → Result E A × W → Result F A × W
  recover f (ok a, w) = (ok a, w)
  recover f (err e, w) = (err (f e), w)

  -- fmt.Errorf("...: %w", err): the error with its context
  abbrev pub wrap : {F A : Type 0} → (E → F) → Call W E A → Call W F A
  wrap f m w = recover f (m w)

pub record Client (X W E : Type 0) : Type 0 where
  pub is_not_found : E → Bool
  pub get : (k : Kind) → (namespace name : String) → Call W E (Object X k)
  pub list : (k : Kind) → ListOptions → Call W E (List (Object X k))
  -- Create; with `dry` the option DryRunAll
  pub create : (dry : Bool) (k : Kind) → Object X k → Call W E (Unit {0})
  -- Update returns the object as the server stored it.
  pub update : (k : Kind) → Object X k → Call W E (Object X k)
  pub update_status : (k : Kind) → Object X k → Call W E (Unit {0})
  pub delete : (k : Kind) → Object X k → Call W E (Unit {0})
  -- ctrl.CreateOrUpdate; its mutate function is nil or SetControllerReference to an owner.
  pub create_or_update :
      (owner : Option (Kind × ObjectMeta X)) (k : Kind) → Object X k → Call W E (Unit {0})
