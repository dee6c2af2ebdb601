-- ===== src/Samples/Nightly.antt =====
-- Concrete runs for a DaemonCronJob and a DaemonCronJobSet against the cluster in memory.
use daemonjob.Prelude.{
  ℕ, String, ◌≡◌, refl, true, false, Option, none, some, [], ◌∷◌, arith, eq_iff,
}
use daemonjob.StringMap.{StringMap, insert, empty}
use daemonjob.Result.{Result, ok}
use daemonjob.Api.{DaemonCronJob, DaemonCronJobSet}
use daemonjob.Status.Verdict.{IsExclusive}
use daemonjob.Client
use daemonjob.Client.{Client, Kind, Object, recover}
use daemonjob.Client.Operations.{exist}
use daemonjob.Reconcile.DaemonCronJob.{
  DaemonCronJobReconciler, cron_finalizer, failed, cron_status_of, update_cron_status,
  reconcile_cron,
}
use daemonjob.Reconcile.DaemonCronJob.Available.{
  is_ok, reconcile_cron-unlabelled, Reports, update_cron_status-Reports,
}
use daemonjob.Reconcile.DaemonCronJobSet.{update_set_status}
use daemonjob.Reconcile.DaemonCronJobSet.Counts.{Settled, update_set_status-Settled}
use daemonjob.Resources.DaemonCronJobSet.Nodes.{Covers, set_cron_jobs, set_cron_jobs-Covers}
use daemonjob.Samples.{meta, daemon_cron_job_args, daemon_cron_job_set}
use daemonjob.Samples.Conditions.{set_condition, set_condition_laws}
use daemonjob.Samples.Cluster.{a_node, cluster, fresh, finalizers, get_object, World}

abbrev pub nightly : Option StringMap → DaemonCronJob ℕ
nightly labels = record (daemon_cron_job_args labels).daemon_cron_job {
  metadata = record (meta "jobs" "nightly") { finalizers = cron_finalizer ∷ [] };
}

abbrev pub cron_reconciler : DaemonCronJobReconciler
cron_reconciler = record { broadcast_image = "broadcast:1"; broadcast_role = "broadcast-role" }

-- The DaemonCronJob without labels, and without its finalizer yet
abbrev unlabelled : DaemonCronJob ℕ
unlabelled = (daemon_cron_job_args none).daemon_cron_job

abbrev get_unlabelled : (k : Kind) → Result String (Object ℕ k)
get_unlabelled Client.daemon_cron_job = ok unlabelled
get_unlabelled k = get_object k

abbrev with_unlabelled : Client ℕ World String
with_unlabelled = record (cluster (ok tt)) { get = λ k namespace name w. (get_unlabelled k, w) }

reconcile_cron-unlabelled_example :
    is_ok
      (reconcile_cron with_unlabelled cron_reconciler set_condition finalizers "jobs" "nightly"
        fresh).0
    ≡ false
reconcile_cron-unlabelled_example =
    reconcile_cron-unlabelled with_unlabelled cron_reconciler set_condition finalizers "jobs"
      "nightly" unlabelled fresh fresh (λ o o' w2 w3 e. cc (e)) refl refl refl

abbrev pub tiers : StringMap
tiers = insert empty "tier" "batch"

pub nightly-IsExclusive : IsExclusive (cron_status_of (nightly (some tiers)))
nightly-IsExclusive = record {
  unique = tt;
  apart = λ e. ground (arith, eq_iff "Available" "Degraded");
  exclusive = refl;
}

-- The CronJob is not there.
update_cron_status-Reports_example :
    (d' : DaemonCronJob ℕ) × (update_cron_status
        (cluster (ok tt))
        cron_reconciler
        set_condition
        (nightly (some tiers))
        fresh
      ≡ recover failed ((cluster (ok tt)).update_status Client.daemon_cron_job d' fresh))
    × (d'.metadata ≡ (nightly (some tiers)).metadata)
    × Reports set_condition set_condition_laws d'.conditions false
unfolding exist
update_cron_status-Reports_example =
    update_cron_status-Reports set_condition set_condition_laws (cluster (ok tt)) cron_reconciler
      (nightly (some tiers)) fresh tiers true false false nightly-IsExclusive refl refl refl refl

set_cron_jobs-Covers_example :
    Covers
      (cluster (ok tt))
      daemon_cron_job_set
      fresh
      (set_cron_jobs (cluster (ok tt)) daemon_cron_job_set fresh)
set_cron_jobs-Covers_example = set_cron_jobs-Covers (cluster (ok tt)) daemon_cron_job_set fresh

-- Two nodes are selected, and no CronJob is there.
update_set_status-Settled_example :
    (d' : DaemonCronJobSet ℕ) × (update_set_status
        (cluster (ok tt))
        set_condition
        daemon_cron_job_set
        fresh
      ≡ (cluster (ok tt)).update_status Client.daemon_cron_job_set d' fresh)
    × (d'.metadata ≡ daemon_cron_job_set.metadata)
    × (d'.status.desired ≡ 2)
    × (d'.status.available ≡ 0)
    × Settled set_condition set_condition_laws d'
update_set_status-Settled_example =
    update_set_status-Settled set_condition set_condition_laws (cluster (ok tt)) daemon_cron_job_set
      fresh fresh fresh (a_node "n1" ∷ a_node "n2" ∷ []) []
      (record {
        unique = tt;
        apart = λ e. ground (arith, eq_iff "Available" "Degraded");
        exclusive = refl;
      })
      refl refl
