-- ===== src/Resources/Names.antt =====
-- The names of the objects: which of them can coincide.
use Prim.Native.String.{count}
use text.Mathlib.TextLemmas.{
  append_assoc, append_cancel_left, append_cancel_right, append_inj, length-append,
}
use daemonjob.Prelude.{
  String, ◌<>◌, ◌≡◌, ◌≢◌, ◌↔◌, refl, ap, sym, ◌∙◌, eq_iff, arith, List, [], ◌∷◌,
}
use daemonjob.Kube.{Subject}
use daemonjob.Api.{DaemonCronJobSet}
use daemonjob.Resources.DaemonJob
use daemonjob.Resources.DaemonJob.{DaemonJobBroadcastArgs}
use daemonjob.Resources.DaemonCronJob
use daemonjob.Resources.DaemonCronJob.{DaemonCronJobBroadcastArgs}
use daemonjob.Resources.DaemonCronJobSet.{cron_job_name}

-- Two texts that end in texts of one length are equal only if those are.
ends_apart : (s t u v : String) → count u ≡ count v → u ≢ v → s <> u ≢ t <> v
ends_apart s t u v same apart e =
    apart ((append_inj e (omega (arith, ap count e, length-append s u, length-append t v))).1)

abbrev first_namespace : List Subject → String
first_namespace [] = ""
first_namespace (s ∷ ss) = s.namespace

longer : (x y : String) → x ≢ x <> ("-" <> y)
longer x y e = omega (arith, ap count e, length-append x ("-" <> y), length-append "-" y)

module _ {X : Type 0} where
  -- Within one DaemonCronJobSet the CronJobs of two nodes have different names.
  pub cron_job_name-injective :
      (a : DaemonCronJobSet X) (n m : String) → cron_job_name a n ≡ cron_job_name a m → n ≡ m
  unfolding cron_job_name
  cron_job_name-injective a n m e =
      append_cancel_right n m "-dcjs"
        (append_cancel_left "-" _ _ (append_cancel_left a.metadata.name _ _ e))

  -- A DaemonJob and a DaemonCronJob never have the same resource name, and two DaemonJobs, or two
  -- DaemonCronJobs, have it exactly when they have the same name.
  pub resource_names_apart :
      (a b : DaemonJobBroadcastArgs X) (c d : DaemonCronJobBroadcastArgs X)
      → (DaemonJob.resource_name a ≢ DaemonCronJob.resource_name c)
        × ((DaemonJob.resource_name a ≡ DaemonJob.resource_name b)
            ↔ (a.daemon_job.metadata.name ≡ b.daemon_job.metadata.name))
        × ((DaemonCronJob.resource_name c ≡ DaemonCronJob.resource_name d)
            ↔ (c.daemon_cron_job.metadata.name ≡ d.daemon_cron_job.metadata.name))
  unfolding DaemonJob.resource_name DaemonCronJob.resource_name
  resource_names_apart a b c d = (
    λ e.
        ends_apart a.daemon_job.metadata.name (c.daemon_cron_job.metadata.name <> "-") "-dj" "dcj"
          refl (λ h. ground (arith, eq_iff "-dj" "dcj"))
          (e ∙ sym (append_assoc c.daemon_cron_job.metadata.name "-" "dcj")),
    (λ e. append_cancel_right _ _ "-dj" e, λ e. rw e),
    (λ e. append_cancel_right _ _ "-dcj" e, λ e. rw e),
  )

  -- In one namespace the ClusterRoleBindings of two DaemonJobs have different names.
  pub cluster_role_binding-name-injective :
      (a b : DaemonJobBroadcastArgs X)
      → a.daemon_job.metadata.namespace ≡ b.daemon_job.metadata.namespace
      → (DaemonJob.cluster_role_binding a).metadata.name
        ≡ (DaemonJob.cluster_role_binding b).metadata.name
      → a.daemon_job.metadata.name ≡ b.daemon_job.metadata.name
  unfolding DaemonJob.cluster_role_binding DaemonJob.resource_name
  cluster_role_binding-name-injective a b same e = append_cancel_right _ _ "-dj" (
      append_cancel_left "-" _ _ (
        append_cancel_left b.daemon_job.metadata.namespace _ _
          (ap (λ t. t <> ("-" <> (a.daemon_job.metadata.name <> "-dj"))) (sym same) ∙ e)))

  -- A DaemonJob `y-z` in namespace `x` and a DaemonJob `z` in namespace `x-y` have ClusterRoleBindings
  -- of one name, and their subjects differ.
  pub cluster_role_binding-collides :
      (a b : DaemonJobBroadcastArgs X) (x y z : String)
      → a.daemon_job.metadata.namespace ≡ x
      → a.daemon_job.metadata.name ≡ y <> ("-" <> z)
      → b.daemon_job.metadata.namespace ≡ x <> ("-" <> y)
      → b.daemon_job.metadata.name ≡ z
      → ((DaemonJob.cluster_role_binding a).metadata.name
          ≡ (DaemonJob.cluster_role_binding b).metadata.name)
        × ((DaemonJob.cluster_role_binding a).subjects
            ≢ (DaemonJob.cluster_role_binding b).subjects)
  unfolding DaemonJob.cluster_role_binding DaemonJob.resource_name
  cluster_role_binding-collides a b x y z p q r s =
      (simp (p, q, r, s, append_assoc), λ e. longer x y (sym p ∙ ap first_namespace e ∙ r))
