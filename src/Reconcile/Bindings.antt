-- ===== src/Reconcile/Bindings.antt =====
-- The deletion of the ClusterRoleBindings of a DaemonJob or a DaemonCronJob that is being deleted.
use daemonjob.Prelude.{
  String, ◌≡◌, ◌↔◌, refl, ap, ◌∙◌, Bool, true, false, not, Option, none, some, List, [], ◌∷◌, any,
  delete_func, ◌==◌, ◌&&◌, arith, eq_iff, eq_refl, Bool-cases, inl, inr,
}
use daemonjob.StringMap.{
  StringMap, get, insert, empty, Selects, Selects-insert, Selects-empty, map_laws,
}
use daemonjob.Result.{ok}
use daemonjob.Kube.{ClusterRoleBinding}
use daemonjob.Resources.DaemonJob.{or_empty}
use daemonjob.Client
use daemonjob.Client.{Client, ◌>>◌}
use daemonjob.Client.Selectors.{ListOptions}
use daemonjob.Client.Operations.{delete_each}
use daemonjob.Reconcile.Sweep.{named, Distinct, sweep, sweep_all}

abbrev is_value : Option String → String → Bool
is_value none v = false
is_value (some u) v = u == v

is_value-some : (o : Option String) (v : String) → (is_value o v ≡ true) ↔ (o ≡ some v)
is_value-some none v = (λ e. cc (e), λ e. cc (e))
is_value-some (some u) v = (λ e. ap some ((eq_iff u v).0 e), λ e. ground (arith, eq_iff u v))

abbrev has : Option StringMap → String → String → Bool
has labels k v = is_value (get (or_empty labels) k) v

-- The labels of what a broadcast for the resource of this namespace and name uses, with the name
-- under `key`
abbrev pub belongs : (key namespace name : String) → Option StringMap → Bool
belongs key namespace name labels =
    has labels "daemonjob.berquerant.github.io/role" "broadcast"
    && (has labels key name && has labels "daemonjob.berquerant.github.io/namespace" namespace)

both_true : (a b c : Bool) → ((a && (b && c)) ≡ true) ↔ ((a ≡ true) × (b ≡ true) × (c ≡ true))
both_true true true true = (λ e. (refl, refl, refl), λ h. refl)
both_true true true false = (λ e. cc (e), λ h. h.2)
both_true true false c = (λ e. cc (e), λ h. h.1)
both_true false b c = (λ e. cc (e), λ h. h.0)

-- The selector of three keys finds what belongs to the resource, and nothing else.
pub belongs-Selects :
    (key namespace name : String) (labels : Option StringMap)
    → (key == "daemonjob.berquerant.github.io/role") ≡ false
    → ("daemonjob.berquerant.github.io/namespace" == key) ≡ false
    → (belongs key namespace name labels ≡ true)
      ↔ Selects
          (insert
            (insert (insert empty "daemonjob.berquerant.github.io/role" "broadcast") key name)
            "daemonjob.berquerant.github.io/namespace"
            namespace)
          (or_empty labels)
belongs-Selects key namespace name labels apart apart' =
    let l = or_empty labels in
    let is_role = is_value-some (get l "daemonjob.berquerant.github.io/role") "broadcast" in
    let is_name = is_value-some (get l key) name in
    let is_namespace = is_value-some (get l "daemonjob.berquerant.github.io/namespace") namespace in
    let all =
      both_true (has labels "daemonjob.berquerant.github.io/role" "broadcast") (has labels key name)
        (has labels "daemonjob.berquerant.github.io/namespace" namespace) in
    (
      λ h.
          let (p, q, s) = all.0 h in
          Selects-insert _ l _ _ (is_namespace.0 s) (
            Selects-insert _ l _ _ (is_name.0 q)
              (Selects-insert _ l _ _ (is_role.0 p) (Selects-empty l))),
      λ sel. all.1 (
        is_role.1 (sel "daemonjob.berquerant.github.io/role" "broadcast" (simp (map_laws, apart))),
        is_name.1 (sel key name (simp (map_laws, eq_refl, apart'))),
        is_namespace.1 (sel "daemonjob.berquerant.github.io/namespace" namespace (simp map_laws)),
      ),
    )

module _ {X : Type 0} where
  abbrev pub binding_name_of : ClusterRoleBinding X → String
  binding_name_of b = b.metadata.name

-- An API server without failures and other actors, with `bindings` as all its ClusterRoleBindings, of
-- which no two have one name: the list with these options returns those that the selector finds, and
-- one that is there can be deleted.
pub record IsBindingStore {X W E : Type 0} (c : Client X W E) (options : ListOptions)
    (bindings : W → List (ClusterRoleBinding X)) : Type 0 where
  pub distinct : (w : W) → Distinct binding_name_of (bindings w)
  pub finds : ClusterRoleBinding X → Bool
  pub found :
      (b : ClusterRoleBinding X)
      → (finds b ≡ true) ↔ Selects options.selector (or_empty b.metadata.labels)
  pub lists :
      (w : W)
      → c.list Client.cluster_role_binding options w
        ≡ (ok (delete_func (λ b. not (finds b)) (bindings w)), w)
  pub deletes :
      (b : ClusterRoleBinding X) (w : W)
      → any (named binding_name_of b.metadata.name) (bindings w) ≡ true
      → (w' : W) × (c.delete Client.cluster_role_binding b w ≡ (ok tt, w'))
        × (bindings w' ≡ delete_func (named binding_name_of b.metadata.name) (bindings w))

delete_each-eq-sweep :
    {X W E : Type 0} (c : Client X W E) (bad : ClusterRoleBinding X → Bool)
    (bs : List (ClusterRoleBinding X))
    → delete_each c Client.cluster_role_binding (delete_func (λ b. not (bad b)) bs)
      ≡ sweep bad (c.delete Client.cluster_role_binding) bs
unfolding delete_each
delete_each-eq-sweep c bad [] = refl
delete_each-eq-sweep c bad (b ∷ bs) = elim (Bool-cases (bad b)) [
  | inl h ↦
      rw (h) (
        ap (λ rest. c.delete Client.cluster_role_binding b >> rest) (delete_each-eq-sweep c bad bs))
  | inr h ↦ rw (h) (delete_each-eq-sweep c bad bs)
]

same_truth : (a b : Bool) → ((a ≡ true) ↔ (b ≡ true)) → a ≡ b
same_truth true true h = refl
same_truth true false h = cc (h.0 refl)
same_truth false true h = cc (h.1 refl)
same_truth false false h = refl

delete_func-same :
    {A : Type 0} (p q : A → Bool)
    → ((a : A) → p a ≡ q a)
    → (xs : List A) → delete_func p xs ≡ delete_func q xs
delete_func-same p q h [] = refl
delete_func-same p q h (x ∷ xs) = ground (arith, h x, delete_func-same p q h xs)

-- Where a test says what the selector finds, exactly those that meet it are deleted.
pub delete_each_bindings :
    {X W E : Type 0} (c : Client X W E) (options : ListOptions)
    (bindings : W → List (ClusterRoleBinding X)) (store : IsBindingStore c options bindings)
    (test : ClusterRoleBinding X → Bool)
    → ((b : ClusterRoleBinding X)
        → (test b ≡ true) ↔ Selects options.selector (or_empty b.metadata.labels))
    → (w : W)
    → (w' : W) × (delete_each c Client.cluster_role_binding
          (delete_func (λ b. not (store.finds b)) (bindings w))
          w
        ≡ (ok tt, w'))
      × (bindings w' ≡ delete_func test (bindings w))
delete_each_bindings c options bindings store test says w =
    let (w', called, _, left) =
      sweep_all binding_name_of store.finds (c.delete Client.cluster_role_binding) bindings
        (λ w. true)
        (λ b w there. let (w1, called, left) = store.deletes b w there in (w1, called, refl, left))
        w (store.distinct w) in
    (
      w',
      ap (λ f. f w) (delete_each-eq-sweep c store.finds (bindings w)) ∙ called,
      left
          ∙ delete_func-same store.finds test
              (λ b.
                same_truth (store.finds b) (test b)
                  (λ e. (says b).1 ((store.found b).0 e), λ e. (store.found b).1 ((says b).0 e)))
              (bindings w),
    )
