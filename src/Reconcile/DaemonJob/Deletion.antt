-- ===== src/Reconcile/DaemonJob/Deletion.antt =====
-- What the deletions of the reconciler of a DaemonJob reach.
use daemonjob.Prelude.{
  String, ◌≡◌, refl, Bool, true, false, not, List, [], ◌∷◌, All, All-imp, delete_func, Bool-cases,
  inl, inr, if◌then◌else◌,
}
use daemonjob.Result.{Result, ok, err}
use daemonjob.Kube.{ClusterRoleBinding, Job}
use daemonjob.Api.{DaemonJob}
use daemonjob.Client
use daemonjob.Client.{Client, Call, continue, pure, ◌>>=◌, ◌>>◌}
use daemonjob.Client.Selectors.{daemon_job_cluster_role_bindings}
use daemonjob.Client.Operations.{FinalizerOps, delete_each}
use daemonjob.Client.Laws.{IsRemoved}
use daemonjob.Status.{SetStatusCondition}
use daemonjob.Reconcile.DaemonJob.{DaemonJobReconciler, reconciler_finalizer}
use daemonjob.Reconcile.DaemonJob.Cleanup.{is_orphan, on_delete, delete_orphans}
use daemonjob.Reconcile.DaemonJob.Cycle.{remove_finalizer_if_exist, reconcile_deleted}

continue-cong :
    {W E A B : Type 0} (f g : Call W E B) (r : Result E A × W)
    → ((w : W) → f w ≡ g w)
    → continue (λ _. f) r ≡ continue (λ _. g) r
continue-cong f g (ok a, w) h = h w
continue-cong f g (err e, w) h = refl

module _ {X W E : Type 0} (c : Client X W E) (nodes : List String) where
  abbrev orphans : List (Job X) → List (Job X)
  orphans = delete_func (λ j. not (is_orphan nodes j))

  delete_orphans-cons :
      (j : Job X) (js : List (Job X)) (w : W) (b : Bool)
      → ((w : W) → delete_orphans c nodes js w ≡ delete_each c Client.job (orphans js) w)
      → (if b
            then c.delete Client.job j >> delete_orphans c nodes js
            else delete_orphans c nodes js)
          w
        ≡ delete_each c Client.job (if not b then orphans js else j ∷ orphans js) w
  unfolding delete_each
  delete_orphans-cons j js w true ih =
      continue-cong (delete_orphans c nodes js) (delete_each c Client.job (orphans js))
        (c.delete Client.job j w) ih
  delete_orphans-cons j js w false ih = ih w

  -- Of the worker Jobs listed, exactly those whose node label names no listed node are deleted, in
  -- their order and up to the first error.
  pub delete_orphans-eq-delete_each :
      (js : List (Job X)) (w : W)
      → delete_orphans c nodes js w
        ≡ delete_each c Client.job (delete_func (λ j. not (is_orphan nodes j)) js) w
  unfolding delete_orphans delete_each
  delete_orphans-eq-delete_each [] w = refl
  delete_orphans-eq-delete_each (j ∷ js) w =
      delete_orphans-cons j js w (is_orphan nodes j) (delete_orphans-eq-delete_each js)

module _ {X W E : Type 0} (c : Client X W E) (Gone : W → ClusterRoleBinding X → Type 0)
    (laws : IsRemoved c Client.cluster_role_binding Gone) where
  delete_step-keeps :
      (i : ClusterRoleBinding X) (rest : Call W E (Unit {0})) (r : Result E (Unit {0}) × W)
      → ((w : W) → Gone w i → Gone (rest w).1 i)
      → Gone r.1 i
      → Gone (continue (λ _. rest) r).1 i
  delete_step-keeps i rest (ok a, w) k h = k w h
  delete_step-keeps i rest (err e, w) k h = h

  delete_each-keeps :
      (i : ClusterRoleBinding X) (xs : List (ClusterRoleBinding X)) (w : W)
      → Gone w i
      → Gone (delete_each c Client.cluster_role_binding xs w).1 i
  unfolding delete_each
  delete_each-keeps i [] w h = h
  delete_each-keeps i (x ∷ xs) w h =
      delete_step-keeps i (delete_each c Client.cluster_role_binding xs)
        (c.delete Client.cluster_role_binding x w) (delete_each-keeps i xs)
        (laws.delete_keeps i x w h)

  -- After deletions that all succeed, every object is gone.
  abbrev AllGone : List (ClusterRoleBinding X) → Result E (Unit {0}) × W → Type 0
  AllGone xs (ok _, w) = All (Gone w) xs
  AllGone xs (err _, w) = Unit

  AllGone-cons :
      (x : ClusterRoleBinding X) (xs : List (ClusterRoleBinding X)) (r : Result E (Unit {0}) × W)
      → Gone r.1 x
      → AllGone xs r
      → AllGone (x ∷ xs) r
  AllGone-cons x xs (ok u, w) h k = (h, k)
  AllGone-cons x xs (err e, w) h k = tt

  delete_step-AllGone :
      (x : ClusterRoleBinding X) (xs : List (ClusterRoleBinding X)) (r : Result E (Unit {0}) × W)
      → ((w : W) → r ≡ (ok tt, w) → Gone w x)
      → ((w : W) → AllGone xs (delete_each c Client.cluster_role_binding xs w))
      → AllGone (x ∷ xs) (continue (λ _. delete_each c Client.cluster_role_binding xs) r)
  delete_step-AllGone x xs (ok u, w) g k =
      AllGone-cons x xs (delete_each c Client.cluster_role_binding xs w)
        (delete_each-keeps x xs w (g w refl)) (k w)
  delete_step-AllGone x xs (err e, w) g k = tt

  delete_each-AllGone :
      (xs : List (ClusterRoleBinding X)) (w : W)
      → AllGone xs (delete_each c Client.cluster_role_binding xs w)
  unfolding delete_each
  delete_each-AllGone [] w = tt
  delete_each-AllGone (x ∷ xs) w =
      delete_step-AllGone x xs (c.delete Client.cluster_role_binding x w) (λ w'. laws.gone x w w')
        (delete_each-AllGone xs)

  -- What a deletion that succeeds has listed at its start `w` is gone when it ends.
  abbrev pub Listed : {A : Type 0} → DaemonJob X → W → Result E A × W → Type 0
  Listed d w (ok _, w') =
      (xs : List (ClusterRoleBinding X)) × (w1 : W) × (c.list Client.cluster_role_binding
          (daemon_job_cluster_role_bindings d.metadata.namespace d.metadata.name) w
        ≡ (ok xs, w1))
      × All (Gone w') xs
  Listed d w (err _, w') = Unit

  Listed-kept :
      {A : Type 0} (d : DaemonJob X) (w w1 : W) (xs : List (ClusterRoleBinding X))
      (r : Result E A × W)
      → c.list Client.cluster_role_binding
          (daemon_job_cluster_role_bindings d.metadata.namespace d.metadata.name)
          w
        ≡ (ok xs, w1)
      → All (Gone r.1) xs
      → Listed d w r
  Listed-kept d w w1 xs (ok _, w') q h = (xs, w1, q, h)
  Listed-kept d w w1 xs (err _, w') q h = tt

  AllGone-Listed :
      (d : DaemonJob X) (w w1 : W) (xs : List (ClusterRoleBinding X)) (r : Result E (Unit {0}) × W)
      → c.list Client.cluster_role_binding
          (daemon_job_cluster_role_bindings d.metadata.namespace d.metadata.name)
          w
        ≡ (ok xs, w1)
      → AllGone xs r
      → Listed d w r
  AllGone-Listed d w w1 xs (ok _, w') q h = (xs, w1, q, h)
  AllGone-Listed d w w1 xs (err _, w') q h = tt

  -- onDelete, given what the list returned
  on_delete-Listed :
      (d : DaemonJob X) (w : W) (r : Result E (List (ClusterRoleBinding X)) × W)
      → c.list Client.cluster_role_binding
          (daemon_job_cluster_role_bindings d.metadata.namespace d.metadata.name)
          w
        ≡ r
      → Listed d w (continue (delete_each c Client.cluster_role_binding) r)
  on_delete-Listed d w (ok xs, w1) q =
      AllGone-Listed d w w1 xs (delete_each c Client.cluster_role_binding xs w1) q
        (delete_each-AllGone xs w1)
  on_delete-Listed d w (err e, w1) q = tt

  update-Listed :
      {A : Type 0} (d : DaemonJob X) (w : W) (f : Call W E A) (r : Result E (Unit {0}) × W)
      → ((i : ClusterRoleBinding X) (w : W) → Gone w i → Gone (f w).1 i)
      → Listed d w r
      → Listed d w (continue (λ _. f) r)
  update-Listed d w f (ok u, w') k (xs, w1, q, h) =
      Listed-kept d w w1 xs (f w') q (All-imp (Gone w') (Gone (f w').1) xs (λ i. k i w') h)
  update-Listed d w f (err e, w') k h = tt

  module _ (ops : FinalizerOps X) (set_status_condition : SetStatusCondition)
      (r : DaemonJobReconciler) where
    finalize : DaemonJob X → Call W E (Unit {0})
    finalize d = do d' ← remove_finalizer_if_exist c ops set_status_condition r d; pure tt

    finish-keeps :
        (i : ClusterRoleBinding X) (rr : Result E (DaemonJob X) × W)
        → Gone rr.1 i
        → Gone (continue (λ _. pure tt) rr).1 i
    finish-keeps i (ok d, w) h = h
    finish-keeps i (err e, w) h = h

    remove_finalizer-keeps :
        (i : ClusterRoleBinding X) (d : DaemonJob X) (w : W)
        → Gone w i
        → Gone (remove_finalizer_if_exist c ops set_status_condition r d w).1 i
    unfolding remove_finalizer_if_exist
    remove_finalizer-keeps i d w h =
        elim (Bool-cases (ops.contains_finalizer d.metadata reconciler_finalizer)) [
          | inl e ↦ rw (e) (
              laws.update_keeps i
                (record d { metadata = ops.remove_finalizer d.metadata reconciler_finalizer }) w h)
          | inr e ↦ rw (e) h
        ]

    deleted_then :
        (d : DaemonJob X) (w : W) (b : Bool)
        → b ≡ true
        → Listed d w (continue (λ _. finalize d) ((if b then on_delete c d else pure tt) w))
    unfolding on_delete finalize
    deleted_then d w true h =
        update-Listed d w (finalize d)
          (continue (delete_each c Client.cluster_role_binding) (
            c.list Client.cluster_role_binding
              (daemon_job_cluster_role_bindings d.metadata.namespace d.metadata.name) w))
          (λ i v g.
            finish-keeps i (remove_finalizer_if_exist c ops set_status_condition r d v)
              (remove_finalizer-keeps i d v g))
          (on_delete-Listed d w
            (c.list Client.cluster_role_binding
              (daemon_job_cluster_role_bindings d.metadata.namespace d.metadata.name) w)
            refl)
    deleted_then d w false h = cc

    -- A deleted DaemonJob that holds the finalizer: where its reconciliation succeeds, all
    -- ClusterRoleBindings that it listed at its start by the labels of this DaemonJob are gone at its
    -- end. A deletion that succeeds removes its object, and neither other deletions nor updates of
    -- DaemonJobs bring it back.
    pub reconcile_deleted-Listed :
        (d : DaemonJob X) (w : W)
        → ops.contains_finalizer d.metadata reconciler_finalizer ≡ true
        → Listed d w (reconcile_deleted c ops set_status_condition r d w)
    unfolding reconcile_deleted finalize
    reconcile_deleted-Listed d w h =
        deleted_then d w (ops.contains_finalizer d.metadata reconciler_finalizer) h
