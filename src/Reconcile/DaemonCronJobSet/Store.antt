-- ===== src/Reconcile/DaemonCronJobSet/Store.antt =====
-- The CronJobs of a DaemonCronJobSet as an API server stores them.
use daemonjob.Prelude.{
  String, ◌≡◌, refl, Bool, true, Option, none, some, List, [], ◌∷◌, ◌==◌, is_some, any, All,
  contains, delete_func, arith, eq_iff, if◌then◌else◌, Bool-cases, inl, inr,
}
use daemonjob.StringMap.{Selects, get}
use daemonjob.Result.{ok}
use daemonjob.Kube.{CronJob, CronJobSpec, Node, ObjectMeta, OwnerReference}
use daemonjob.Api.{DaemonCronJobSet}
use daemonjob.Resources.Constants.{label_node}
use daemonjob.Resources.DaemonJob.{or_empty}
use daemonjob.Resources.DaemonCronJobSet.{cron_job_name}
use daemonjob.Resources.DaemonCronJobSet.Nodes.{set_node_options}
use daemonjob.Resources.Names.{cron_job_name-injective}
use daemonjob.Client
use daemonjob.Client.{Client, Kind}
use daemonjob.Reconcile.Sweep.{named, Distinct}
use daemonjob.Reconcile.DaemonCronJobSet.{is_mismatched, list_options_of}

module _ {X : Type 0} where
  abbrev pub name_of : CronJob X → String
  name_of j = j.metadata.name

  abbrev pub has_name : String → CronJob X → Bool
  has_name n j = named name_of n j

  -- The same CronJob with other owners
  abbrev pub owned : (CronJob X → List OwnerReference) → CronJob X → CronJob X
  owned owners j = record j { metadata = record j.metadata { owner_references = owners j } }

  -- The stored CronJobs after ctrl.CreateOrUpdate with a function that sets the owner: a CronJob of
  -- that name is read and gets the owner, and is otherwise left as it is; where there is none, the
  -- given one is created.
  abbrev pub store_cron_job :
      (CronJob X → List OwnerReference) → CronJob X → List (CronJob X) → List (CronJob X)
  store_cron_job owners j [] = owned owners j ∷ []
  store_cron_job owners j (k ∷ ks) =
      let rest = store_cron_job owners j ks in
      if has_name j.metadata.name k then owned owners k ∷ ks else k ∷ rest

  -- The spec of the CronJob of this name
  abbrev pub spec_at : String → List (CronJob X) → Option (CronJobSpec X)
  spec_at n [] = none
  spec_at n (j ∷ js) = let rest = spec_at n js in if has_name n j then some j.spec else rest

  abbrev pub or_new : CronJobSpec X → Option (CronJobSpec X) → CronJobSpec X
  or_new new none = new
  or_new new (some old) = old

  pub spec_at-any_named :
      (n : String) (js : List (CronJob X)) → any (has_name n) js ≡ is_some (spec_at n js)
  spec_at-any_named n [] = refl
  spec_at-any_named n (j ∷ js) = ground (arith, spec_at-any_named n js)

  pub spec_at-store_cron_job :
      (n : String) (owners : CronJob X → List OwnerReference) (j : CronJob X)
      (js : List (CronJob X))
      → spec_at n (store_cron_job owners j js)
        ≡ (if has_name n j then some (or_new j.spec (spec_at n js)) else spec_at n js)
  spec_at-store_cron_job n owners j [] = ground arith
  spec_at-store_cron_job n owners j (k ∷ ks) = ground (
    arith,
    spec_at-store_cron_job n owners j ks,
    eq_iff k.metadata.name j.metadata.name,
    eq_iff k.metadata.name n,
    eq_iff j.metadata.name n,
  )

-- An API server without failures and other actors, in which the nodes that a DaemonCronJobSet
-- selects are `nodes`, and the CronJobs that its selector finds in its namespace are `jobs`, of which
-- no two have one name: a call that writes a CronJob which the selector finds, or deletes one that
-- is there, does so, and nothing else changes.
pub record IsCronStore {X W E : Type 0} (c : Client X W E) (d : DaemonCronJobSet X)
    (nodes : W → List Node) (jobs : W → List (CronJob X)) : Type 0 where
  pub distinct : (w : W) → Distinct name_of (jobs w)
  pub list_nodes : (w : W) → c.list Client.node (set_node_options d) w ≡ (ok (nodes w), w)
  pub list_jobs : (w : W) → c.list Client.cron_job (list_options_of d) w ≡ (ok (jobs w), w)
  pub deletes :
      (j : CronJob X) (w : W)
      → any (has_name j.metadata.name) (jobs w) ≡ true
      → (w' : W) × (c.delete Client.cron_job j w ≡ (ok tt, w'))
        × (nodes w' ≡ nodes w)
        × (jobs w' ≡ delete_func (has_name j.metadata.name) (jobs w))
  pub owners : Option (Kind × ObjectMeta X) → CronJob X → List OwnerReference
  pub stores :
      (owner : Option (Kind × ObjectMeta X)) (j : CronJob X) (w : W)
      → Selects (list_options_of d).selector (or_empty j.metadata.labels)
      → j.metadata.namespace ≡ d.metadata.namespace
      → (w' : W) × (c.create_or_update owner Client.cron_job j w ≡ (ok tt, w'))
        × (nodes w' ≡ nodes w)
        × (jobs w' ≡ store_cron_job (owners owner) j (jobs w))

module _ {X : Type 0} (d : DaemonCronJobSet X) where
  -- Made by the set for some node
  abbrev pub IsOwn : CronJob X → Type 0
  IsOwn j =
      (node : String) × (j.metadata.name ≡ cron_job_name d node)
      × (get (or_empty j.metadata.labels) label_node ≡ some node)

  pub cron_job_name-eq : (m n : String) → (cron_job_name d m == cron_job_name d n) ≡ (m == n)
  cron_job_name-eq m n = ground (
    arith,
    eq_iff (cron_job_name d m) (cron_job_name d n),
    eq_iff m n,
    cron_job_name-injective d m n,
  )

  kept_spec :
      (nodes : List String) (node : String) (j : CronJob X) (before after : Option (CronJobSpec X))
      → IsOwn j
      → after ≡ (if contains nodes node then before else none)
      → (if is_mismatched nodes j
          then after
          else if has_name (cron_job_name d node) j
          then some j.spec
          else after)
        ≡ (if contains nodes node
            then if has_name (cron_job_name d node) j then some j.spec else before
            else none)
  kept_spec nodes node j before after (m, name, label) h =
      rw (name, label) (ground (arith, cron_job_name-eq m node, eq_iff m node))

  -- Without those on nodes that are not listed
  pub spec_at-delete_func :
      (nodes : List String) (node : String) (js : List (CronJob X))
      → All IsOwn js
      → spec_at (cron_job_name d node) (delete_func (is_mismatched nodes) js)
        ≡ (if contains nodes node then spec_at (cron_job_name d node) js else none)
  spec_at-delete_func nodes node [] h = ground arith
  spec_at-delete_func nodes node (j ∷ js) h = ground (
    arith,
    kept_spec nodes node j (spec_at (cron_job_name d node) js)
        (spec_at (cron_job_name d node) (delete_func (is_mismatched nodes) js)) h.0
        (spec_at-delete_func nodes node js h.1),
  )

  pub IsOwn-delete_func :
      (f : CronJob X → Bool) (js : List (CronJob X)) → All IsOwn js → All IsOwn (delete_func f js)
  IsOwn-delete_func f [] h = tt
  IsOwn-delete_func f (j ∷ js) h = elim (Bool-cases (f j)) [
    | inl e ↦ rw (e) (IsOwn-delete_func f js h.1)
    | inr e ↦ rw (e) (h.0, IsOwn-delete_func f js h.1)
  ]

  pub IsOwn-store_cron_job :
      (owners : CronJob X → List OwnerReference) (j : CronJob X) (js : List (CronJob X))
      → IsOwn j
      → All IsOwn js
      → All IsOwn (store_cron_job owners j js)
  IsOwn-store_cron_job owners j [] own h = (own, tt)
  IsOwn-store_cron_job owners j (k ∷ ks) own h = elim (Bool-cases (has_name j.metadata.name k)) [
    | inl e ↦ rw (e) (h.0, h.1)
    | inr e ↦ rw (e) (h.0, IsOwn-store_cron_job owners j ks own h.1)
  ]

  -- A name that is there is that of some node's CronJob.
  pub own_name :
      (n : String) (js : List (CronJob X))
      → All IsOwn js
      → any (has_name n) js ≡ true
      → (node : String) × (n ≡ cron_job_name d node)
  own_name n [] h e = cc
  own_name n (j ∷ js) h e = elim (Bool-cases (has_name n j)) [
    | inl this ↦ (h.0.0, ground (arith, h.0.1, eq_iff j.metadata.name n))
    | inr other ↦ own_name n js h.1 (ground arith)
  ]
