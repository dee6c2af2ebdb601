-- ===== src/Reconcile/Watches.antt =====
-- What the watches of the three reconcilers share: the requests for the owners that objects name in
-- a label, as the loops over xs.Items in SetupWithManager collect them.
pub mod Workers
use daemonjob.Prelude.{String, Bool, Option, none, some, List, [], ◌∷◌, is_some}
use daemonjob.StringMap.{get}
use daemonjob.Kube.{ObjectMeta}
use daemonjob.Resources.DaemonJob.{or_empty}

-- reconcile.Request
pub record Request : Type 0 where
  pub namespace : String
  pub name : String

module _ {X : Type 0} where
  -- x.Labels[label]
  abbrev pub owner_of : String → ObjectMeta X → Option String
  owner_of label m = get (or_empty m.labels) label

  abbrev pub has_owner : String → ObjectMeta X → Bool
  has_owner label m = is_some (owner_of label m)

  abbrev pub request_if : ObjectMeta X → Option String → List Request → List Request
  request_if m none rest = rest
  request_if m (some name) rest = record { namespace = m.namespace; name = name } ∷ rest

  unfoldable pub owner_requests : String → List (ObjectMeta X) → List Request
  owner_requests label [] = []
  owner_requests label (m ∷ ms) = request_if m (owner_of label m) (owner_requests label ms)
