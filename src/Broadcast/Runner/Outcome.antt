-- ===== src/Broadcast/Runner/Outcome.antt =====
-- The dry runs of Runner.Run and the cluster they leave.
use daemonjob.Prelude.{Bool, true, false, ◌≡◌, refl, subst, sym, List, [], ◌∷◌, arith}
use daemonjob.Result.{Result, ok, err}
use daemonjob.Kube.{Job, Node}
use daemonjob.Api.{DaemonJobSpec}
use daemonjob.Client
use daemonjob.Client.Laws.{IsQuiet}
use daemonjob.Client.{Client, Call, pure, wrap, recover, continue, ◌>>=◌, ◌>>◌}
use daemonjob.Broadcast.Config.{Config}
use daemonjob.Broadcast.Runner.{
  RunError, list_nodes, create_failed, node_list_options, fetch_spec, build_jobs, create_all,
  apply_jobs, process, find_nodes, run,
}

abbrev pub is_create_error : {E : Type 0} → RunError E → Bool
is_create_error (create_failed j e) = true
is_create_error _ = false

module _ {W E : Type 0} where
  -- An error that does not come from a real creation left the cluster `w` as it was.
  abbrev Gate : {A : Type 0} → W → Result (RunError E) A × W → Type 0
  Gate w (ok a, w') = Unit
  Gate w (err e, w') = is_create_error e ≡ false → w' ≡ w

  Gate-bind :
      {A B : Type 0} (w : W) (r : Result (RunError E) A × W) (f : A → Call W (RunError E) B)
      → r.1 ≡ w
      → ((a : A) → Gate w (f a w))
      → Gate w (continue f r)
  Gate-bind w (ok a, w') f q g = subst (λ v. Gate w (f a v)) (sym q) (g a)
  Gate-bind w (err e, w') f q g = λ _. q

  bind-world :
      {A B : Type 0} (w : W) (r : Result (RunError E) A × W) (f : A → Call W (RunError E) B)
      → r.1 ≡ w
      → ((a : A) → (f a w).1 ≡ w)
      → (continue f r).1 ≡ w
  bind-world w (ok a, w') f q g = subst (λ v. (f a v).1 ≡ w) (sym q) (g a)
  bind-world w (err e, w') f q g = q

  pub wrap-world :
      {A : Type 0} (w : W) (f : E → RunError E) (r : Result E A × W) → r.1 ≡ w → (recover f r).1 ≡ w
  wrap-world w f (ok a, w') q = q
  wrap-world w f (err e, w') q = q

module _ {X W E : Type 0} (c : Client X W E) (cfg : Config) where
  create_all-world : IsQuiet c → (js : List (Job X)) (w : W) → (create_all c cfg true js w).1 ≡ w
  unfolding create_all
  create_all-world q [] w = refl
  create_all-world q (j ∷ js) w =
      bind-world w _ (λ _. create_all c cfg true js)
        (wrap-world w _ (c.create true Client.job j w) (q.dry_run_keeps Client.job j w))
        (λ _. create_all-world q js w)

  create_step-Gate :
      (js : List (Job X)) (j : Job X) (v : W) (r : Result E (Unit {0}) × W)
      → ((w : W) → Gate v (create_all c cfg false js w))
      → Gate v
          (continue (λ _. create_all c cfg false js) (recover (create_failed j.metadata.name) r))
  create_step-Gate js j v (ok a, w') ih = ih w'
  create_step-Gate js j v (err e, w') ih = λ h. cc

  -- Every error of the second loop is that of a real creation.
  create_all-Gate : (js : List (Job X)) (v w : W) → Gate v (create_all c cfg false js w)
  unfolding create_all
  create_all-Gate [] v w = tt
  create_all-Gate (j ∷ js) v w =
      create_step-Gate js j v (c.create false Client.job j w) (create_all-Gate js v)

  pub fetch_spec-world : IsQuiet c → (w : W) → (fetch_spec c cfg w).1 ≡ w
  unfolding fetch_spec
  fetch_spec-world q w = ground (
    arith,
    q.get_keeps Client.daemon_job cfg.namespace cfg.daemon_job_name w,
    q.get_keeps Client.daemon_cron_job cfg.namespace cfg.daemon_cron_job_name w,
  )

  process-Gate :
      IsQuiet c
      → (spec : DaemonJobSpec X) (nodes : List Node) (w : W) → Gate w (process c cfg spec nodes w)
  unfolding apply_jobs
  process-Gate q spec [] w = tt
  process-Gate q spec (n ∷ ns) w =
      Gate-bind w _ (λ _. create_all c cfg false (build_jobs c cfg spec (n ∷ ns)))
        (create_all-world q (build_jobs c cfg spec (n ∷ ns)) w)
        (λ _. create_all-Gate (build_jobs c cfg spec (n ∷ ns)) w w)

  run-Gate : IsQuiet c → (w : W) → Gate w (run c cfg w)
  unfolding run
  run-Gate q w =
      Gate-bind w (fetch_spec c cfg w) (λ spec. find_nodes c cfg spec >>= process c cfg spec)
        (fetch_spec-world q w)
        λ spec.
          Gate-bind w (find_nodes c cfg spec w) (process c cfg spec)
            (wrap-world w list_nodes (c.list Client.node (node_list_options spec.node_selector) w)
              (q.list_keeps Client.node (node_list_options spec.node_selector) w))
            (λ nodes. process-Gate q spec nodes w)

  Gate-error :
      {A : Type 0} (w : W) (e : RunError E) (r : Result (RunError E) A × W)
      → Gate w r
      → r.0 ≡ err e
      → is_create_error e ≡ false
      → r.1 ≡ w
  Gate-error w e (ok a, w') g h n = cc
  Gate-error w e (err e', w') g h n = g (cc)

  -- Where reads and dry runs do not change the cluster, a run that ends with any other error than
  -- that of a real creation, so also one in which a dry run is refused, leaves the cluster as it was.
  pub run-unchanged :
      (w : W) (e : RunError E)
      → IsQuiet c
      → (run c cfg w).0 ≡ err e
      → is_create_error e ≡ false
      → (run c cfg w).1 ≡ w
  run-unchanged w e q h n = Gate-error w e (run c cfg w) (run-Gate q w) h n
