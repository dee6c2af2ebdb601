-- ===== src/Broadcast/Runner/Created.antt =====
-- What the loops of Runner.Run have created when it ends, with or without an error.
use daemonjob.Prelude.{true, false, ◌≡◌, refl, ap, List, [], ◌∷◌, ◌++◌, All, arith}
use daemonjob.Result.{Result, ok, err}
use daemonjob.Kube.{Job, Node}
use daemonjob.Api.{DaemonJobSpec}
use daemonjob.Client
use daemonjob.Client.{Client, Call, recover, continue, wrap, ◌>>=◌, ◌>>◌}
use daemonjob.Broadcast.Config.{Config}
use daemonjob.Broadcast.Runner.{
  RunError, list_nodes, dry_run_failed, create_failed, node_list_options, fetch_spec, build_jobs,
  create_all, apply_jobs, process, find_nodes, run,
}
use daemonjob.Broadcast.Runner.Outcome.{is_create_error}
use daemonjob.Client.Laws.{IsStored}

module _ {W E : Type 0} where
  abbrev IsEarly : {A : Type 0} → Result (RunError E) A × W → Type 0
  IsEarly (ok _, w) = Unit
  IsEarly (err e, w) = is_create_error e ≡ false

  wrap-IsEarly :
      {A : Type 0} (f : E → RunError E) (r : Result E A × W)
      → ((e : E) → is_create_error (f e) ≡ false)
      → IsEarly (recover f r)
  wrap-IsEarly f (ok a, w) h = tt
  wrap-IsEarly f (err e, w) h = h e

  bind-IsEarly :
      {A B : Type 0} (f : A → Call W (RunError E) B) (r : Result (RunError E) A × W)
      → IsEarly r
      → ((a : A) (w : W) → IsEarly (f a w))
      → IsEarly (continue f r)
  bind-IsEarly f (ok a, w) h k = k a w
  bind-IsEarly f (err e, w) h k = h

module _ {X W E : Type 0} (c : Client X W E) (cfg : Config) where
  create_all-IsEarly : (js : List (Job X)) (w : W) → IsEarly (create_all c cfg true js w)
  unfolding create_all
  create_all-IsEarly [] w = tt
  create_all-IsEarly (j ∷ js) w =
      bind-IsEarly (λ _. create_all c cfg true js)
        (recover (dry_run_failed j.metadata.name) (c.create true Client.job j w))
        (wrap-IsEarly (dry_run_failed j.metadata.name) (c.create true Client.job j w) (λ _. refl))
        (λ _. create_all-IsEarly js)

  fetch_spec-IsEarly : (w : W) → IsEarly (fetch_spec c cfg w)
  unfolding fetch_spec
  fetch_spec-IsEarly w = ground arith

module _ {X W E : Type 0} (c : Client X W E) (cfg : Config) (Stored : W → Job X → Type 0)
    (laws : IsStored c Stored) where
  -- What the second loop leaves: every Job is there, or those before the one whose creation failed.
  abbrev Created : List (Job X) → Result (RunError E) (Unit {0}) × W → Type 0
  Created js (ok _, w') = All (Stored w') js
  Created js (err e, w') =
      (done : List (Job X)) × (j : Job X) × (rest : List (Job X)) × (e' : E) × (js
        ≡ done ++ j ∷ rest)
      × (e ≡ create_failed j.metadata.name e')
      × All (Stored w') done

  stays-step :
      (i j : Job X) (js : List (Job X)) (r : Result E (Unit {0}) × W)
      → ((w : W) → Stored w i → Stored (create_all c cfg false js w).1 i)
      → Stored r.1 i
      → Stored
          (continue (λ _. create_all c cfg false js) (recover (create_failed j.metadata.name) r)).1
          i
  stays-step i j js (ok a, w') ih h = ih w' h
  stays-step i j js (err e, w') ih h = h

  stays-loop :
      (i : Job X) (js : List (Job X)) (w : W)
      → Stored w i
      → Stored (create_all c cfg false js w).1 i
  unfolding create_all
  stays-loop i [] w h = h
  stays-loop i (j ∷ js) w h =
      stays-step i j js (c.create false Client.job j w) (stays-loop i js) (laws.stays i j w h)

  Created-cons :
      (j : Job X) (js : List (Job X)) (r : Result (RunError E) (Unit {0}) × W)
      → Stored r.1 j
      → Created js r
      → Created (j ∷ js) r
  Created-cons j js (ok a, w') h k = (h, k)
  Created-cons j js (err e, w') h (done, i, rest, e', split, named, k) =
      (j ∷ done, i, rest, e', ap (◌∷◌ j) split, named, (h, k))

  Created-step :
      (j : Job X) (js : List (Job X)) (r : Result E (Unit {0}) × W)
      → ((w : W) → Created js (create_all c cfg false js w))
      → ((w' : W) → r ≡ (ok tt, w') → Stored w' j)
      → Created
          (j ∷ js)
          (continue (λ _. create_all c cfg false js) (recover (create_failed j.metadata.name) r))
  Created-step j js (ok u, w') ih h =
      Created-cons j js (create_all c cfg false js w') (stays-loop j js w' (h w' refl)) (ih w')
  Created-step j js (err e, w') ih h = ([], j, js, e, refl, refl, tt)

  create_all-Created : (js : List (Job X)) (w : W) → Created js (create_all c cfg false js w)
  unfolding create_all
  create_all-Created [] w = tt
  create_all-Created (j ∷ js) w =
      Created-step j js (c.create false Client.job j w) (create_all-Created js)
        (λ w'. laws.stored j w w')

  -- How a run that starts in `w` ends: with an error that no real creation made; or, for the spec
  -- and the nodes that it read, with the worker Jobs of all nodes there; or with the error of one
  -- creation, and the worker Jobs before that one there.
  pub data Ended (w : W) : Result (RunError E) (Unit {0}) × W → Type 0 where
    refused : (e : RunError E) (w' : W) → is_create_error e ≡ false → Ended w (err e, w')
    created :
        (spec : DaemonJobSpec X) (nodes : List Node) (w1 w2 : W)
        (r : Result (RunError E) (Unit {0}) × W)
        → fetch_spec c cfg w ≡ (ok spec, w1)
        → find_nodes c cfg spec w1 ≡ (ok nodes, w2)
        → Created (build_jobs c cfg spec nodes) r
        → Ended w r

  gated-Ended :
      (w : W) (js : List (Job X)) (r : Result (RunError E) (Unit {0}) × W)
      → IsEarly r
      → ((v : W) → Created js (create_all c cfg false js v) → Ended w (create_all c cfg false js v))
      → Ended w (continue (λ _. create_all c cfg false js) r)
  gated-Ended w js (ok u, v) early k = k v (create_all-Created js v)
  gated-Ended w js (err e, v) early k = refused e v early

  process-Ended :
      (w : W) (spec : DaemonJobSpec X) (nodes : List Node) (w1 w2 : W)
      → fetch_spec c cfg w ≡ (ok spec, w1)
      → find_nodes c cfg spec w1 ≡ (ok nodes, w2)
      → Ended w (process c cfg spec nodes w2)
  unfolding apply_jobs
  process-Ended w spec [] w1 w2 p q = created spec [] w1 w2 (ok tt, w2) p q tt
  process-Ended w spec (n ∷ ns) w1 w2 p q =
      gated-Ended w (build_jobs c cfg spec (n ∷ ns))
        (create_all c cfg true (build_jobs c cfg spec (n ∷ ns)) w2)
        (create_all-IsEarly c cfg (build_jobs c cfg spec (n ∷ ns)) w2)
        λ v.
          created spec (n ∷ ns) w1 w2 (create_all c cfg false (build_jobs c cfg spec (n ∷ ns)) v) p
            q

  found-Ended :
      (w : W) (spec : DaemonJobSpec X) (w1 : W) (r : Result (RunError E) (List Node) × W)
      → fetch_spec c cfg w ≡ (ok spec, w1)
      → find_nodes c cfg spec w1 ≡ r
      → IsEarly r
      → Ended w (continue (process c cfg spec) r)
  found-Ended w spec w1 (ok nodes, w2) p q early = process-Ended w spec nodes w1 w2 p q
  found-Ended w spec w1 (err e, w2) p q early = refused e w2 early

  fetched-Ended :
      (w : W) (r : Result (RunError E) (DaemonJobSpec X) × W)
      → fetch_spec c cfg w ≡ r
      → IsEarly r
      → Ended w (continue (λ spec. find_nodes c cfg spec >>= process c cfg spec) r)
  fetched-Ended w (ok spec, w1) p early = found-Ended w spec w1 (find_nodes c cfg spec w1) p refl (
      wrap-IsEarly list_nodes (c.list Client.node (node_list_options spec.node_selector) w1)
        (λ _. refl))
  fetched-Ended w (err e, w1) p early = refused e w1 early

  -- A run ends with an error that no real creation made; or, for the spec and the nodes that it
  -- read, with the worker Job of every node in the cluster; or with the error of the creation of
  -- one of these Jobs, and all Jobs before that one in the cluster. The client's creations store
  -- what they succeed with and take away nothing.
  pub run-Ended : (w : W) → Ended w (run c cfg w)
  unfolding run
  run-Ended w = fetched-Ended w (fetch_spec c cfg w) refl (fetch_spec-IsEarly c cfg w)
