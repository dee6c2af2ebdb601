-- ===== src/Client/Operations.antt =====
-- internal/controller/api.go: the calls that the reconcilers make beside the lists of Selectors.
-- controllerutil's functions on the finalizers of an object are a parameter.
use daemonjob.Prelude.{String, Bool, true, false, List, [], ◌∷◌, if◌then◌else◌}
use daemonjob.Result.{Result, ok, err}
use daemonjob.Kube.{ObjectMeta}
use daemonjob.Client.{Client, Kind, Object, Call, pure, ◌>>◌}

pub record FinalizerOps (X : Type 0) : Type 0 where
  pub contains_finalizer : ObjectMeta X → String → Bool
  pub add_finalizer : ObjectMeta X → String → ObjectMeta X
  pub remove_finalizer : ObjectMeta X → String → ObjectMeta X

module _ {X W E : Type 0} (c : Client X W E) where
  -- The switch over the error of Get.
  abbrev pub exist_result : {A : Type 0} → Result E A × W → Result E Bool × W
  exist_result (ok _, w) = (ok true, w)
  exist_result (err e, w) = (if c.is_not_found e then ok false else err e, w)

  unfoldable pub exist : Kind → (namespace name : String) → Call W E Bool
  exist k namespace name w = exist_result (c.get k namespace name w)

  -- for _, x := range items { if err := r.Delete(ctx, &x); err != nil { return err } }
  unfoldable pub delete_each : (k : Kind) → List (Object X k) → Call W E (Unit {0})
  delete_each k [] = pure tt
  delete_each k (x ∷ xs) = let rest = delete_each k xs in c.delete k x >> rest
