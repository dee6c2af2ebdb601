-- ===== src/Reconcile/Contents.antt =====
-- What a cluster holds for a DaemonJob or a DaemonCronJob, and what the loop over its worker Jobs
-- makes of it.
use daemonjob.Prelude.{
  String, ◌≡◌, refl, ap, ◌∙◌, Bool, true, Option, List, [], ◌∷◌, map, any, delete_func,
  if◌then◌else◌,
}
use daemonjob.Result.{ok}
use daemonjob.Kube.{Job, Node}
use daemonjob.Client
use daemonjob.Client.{Client, ◌>>◌}
use daemonjob.Reconcile.Sweep.{named, Distinct, sweep, sweep_all}
use daemonjob.Reconcile.DaemonJob.Cleanup.{is_orphan, delete_orphans}

-- The nodes, whether the ServiceAccount and the ClusterRoleBinding exist, the broadcast Job or
-- CronJob, and the Jobs that the selector of the workers finds
pub record Contents (X B : Type 0) : Type 0 where
  pub nodes : List Node
  pub account : Bool
  pub binding : Bool
  pub broadcast : Option B
  pub workers : List (Job X)

module _ {X : Type 0} where
  abbrev pub job_name_of : Job X → String
  job_name_of j = j.metadata.name

  abbrev pub names_of : {B : Type 0} → Contents X B → List String
  names_of x = map (λ n. n.name) x.nodes

  -- Without the worker Jobs of nodes that are gone
  abbrev pub without_orphans : {B : Type 0} → Contents X B → Contents X B
  without_orphans x = record x { workers = delete_func (is_orphan (names_of x)) x.workers }

  abbrev pub without_job : {B : Type 0} → Job X → Contents X B → Contents X B
  without_job j x = record x { workers = delete_func (named job_name_of j.metadata.name) x.workers }

-- The worker Jobs of an API server without failures and other actors: no two have one name, and one
-- that is there can be deleted.
pub record HasWorkers {X W E B : Type 0} (c : Client X W E) (contents : W → Contents X B)
    : Type 0 where
  pub distinct : (w : W) → Distinct job_name_of (contents w).workers
  pub deletes :
      (j : Job X) (w : W)
      → any (named job_name_of j.metadata.name) (contents w).workers ≡ true
      → (w' : W) × (c.delete Client.job j w ≡ (ok tt, w'))
        × (contents w' ≡ without_job j (contents w))

delete_orphans-eq-sweep :
    {X W E : Type 0} (c : Client X W E) (ns : List String) (js : List (Job X))
    → delete_orphans c ns js ≡ sweep (is_orphan ns) (c.delete Client.job) js
unfolding delete_orphans
delete_orphans-eq-sweep c ns [] = refl
delete_orphans-eq-sweep c ns (j ∷ js) =
    ap (λ rest. if is_orphan ns j then c.delete Client.job j >> rest else rest)
      (delete_orphans-eq-sweep c ns js)

pub delete_orphans_swept :
    {X W E B : Type 0} (c : Client X W E) (contents : W → Contents X B)
    → HasWorkers c contents
    → (w : W)
    → (w' : W) × (delete_orphans c (names_of (contents w)) (contents w).workers w ≡ (ok tt, w'))
      × (contents w' ≡ without_orphans (contents w))
delete_orphans_swept {X = X} {B = B} c contents store w =
    let ns = names_of (contents w) in
    let (w', called, same, left) =
      sweep_all job_name_of (is_orphan ns) (c.delete Client.job) (λ w. (contents w).workers)
        (λ w. record (contents w) { workers = [] })
        (λ j w there.
          let (w1, called, left) = store.deletes j w there in
          (
            w1,
            called,
            ap {A = Contents X B} (λ x. record x { workers = [] }) left,
            ap (λ x. x.workers) left,
          ))
        w (store.distinct w) in
    (
      w',
      ap (λ f. f w) (delete_orphans-eq-sweep c ns (contents w).workers) ∙ called,
      λ i. record (same i) { workers = left i },
    )
