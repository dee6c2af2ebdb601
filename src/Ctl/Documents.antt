-- ===== src/Ctl/Documents.antt =====
-- Manifests of several documents.
use mathlib.Core.List.{append_assoc, append-nil}
use daemonjob.Prelude.{
  String, ◌≡◌, refl, ap, sym, ◌∙◌, List, [], ◌∷◌, ◌++◌, Outcome, panicked, returned, true, false,
  Bool, arith,
}
use daemonjob.Result.{Result, ok, err}
use daemonjob.Ctl.Resource.{WriteResult}
use daemonjob.Ctl.Manifest.{Yaml, GenerateError}
use daemonjob.Ctl.Generate.{
  no_result, combine, next_sum, next_document, generate_from, generate_document, generate,
}

abbrev pub Run : Type 0 → Type 0 → Type 0 → Type 0
Run X U F = Outcome (Result F (WriteResult X U))

module _ {X U : Type 0} where
  combine_assoc :
      (sum r t : WriteResult X U)
      → combine (combine sum r) t ≡ combine sum (combine (combine no_result r) t)
  combine_assoc sum r t = ground (
    arith,
    append_assoc sum.direct r.direct t.direct,
    append_assoc sum.simulated r.simulated t.simulated,
  )

  combine-no_result : (a : WriteResult X U) → combine a no_result ≡ a
  combine-no_result a = ground (arith, append-nil a.direct, append-nil a.simulated)

module _ {X U F : Type 0} where
  next_sum_same :
      (j k : WriteResult X U → Run X U F)
      → ((a : WriteResult X U) → j a ≡ k a)
      → (o : Run X U F) → next_sum j o ≡ next_sum k o
  next_sum_same j k h panicked = refl
  next_sum_same j k h (returned (err e)) = refl
  next_sum_same j k h (returned (ok a)) = h a

  -- What is added to a result so far
  abbrev added : WriteResult X U → Run X U F → Run X U F
  added sum o = next_sum (λ t. returned (ok (combine sum t))) o

  added-added :
      (sum r : WriteResult X U) (o : Run X U F)
      → added (combine sum r) o ≡ added sum (added (combine no_result r) o)
  added-added sum r panicked = refl
  added-added sum r (returned (err e)) = refl
  added-added sum r (returned (ok t)) = ap (λ r. returned (ok r)) (combine_assoc sum r t)

  next_document-then :
      (q : WriteResult X U → Run X U F) (j k : WriteResult X U → Run X U F)
      → ((s : WriteResult X U) → j s ≡ next_sum q (k s))
      → (b : Bool) (sum : WriteResult X U) (o : Run X U F)
      → next_document b sum o j ≡ next_sum q (next_document b sum o k)
  next_document-then q j k h true sum o = h sum
  next_document-then q j k h false sum panicked = refl
  next_document-then q j k h false sum (returned (err e)) = refl
  next_document-then q j k h false sum (returned (ok r)) = h (combine sum r)

  next_document-sum :
      (k : WriteResult X U → Run X U F)
      → ((s : WriteResult X U) → k s ≡ added s (k no_result))
      → (b : Bool) (sum : WriteResult X U) (o : Run X U F)
      → next_document b sum o k ≡ added sum (next_document b no_result o k)
  next_document-sum k h true sum o = h sum
  next_document-sum k h false sum panicked = refl
  next_document-sum k h false sum (returned (err e)) = refl
  next_document-sum k h false sum (returned (ok r)) =
      h (combine sum r)
      ∙ (added-added sum r (k no_result) ∙ ap (added sum) (sym (h (combine no_result r))))

-- A result, if there is one, has no header.
abbrev pub Headless : {X U F : Type 0} → Run X U F → Type 0
Headless panicked = Unit
Headless (returned (err e)) = Unit
Headless (returned (ok r)) = r.header ≡ ""

-- Both results, in their order, or what ends the first run, or else the second.
abbrev pub both : {X U F : Type 0} → Run X U F → Run X U F → Run X U F
both panicked p = panicked
both (returned (err e)) p = returned (err e)
both (returned (ok r)) panicked = panicked
both (returned (ok r)) (returned (err e)) = returned (err e)
both (returned (ok r)) (returned (ok r')) = returned (
    ok (record {
      header = "";
      direct = r.direct ++ r'.direct;
      simulated = r.simulated ++ r'.simulated;
    }))

-- A result with its header taken away
abbrev pub headless : {X U F : Type 0} → Run X U F → Run X U F
headless panicked = panicked
headless (returned (err e)) = returned (err e)
headless (returned (ok r)) = returned (ok (record r { header = "" }))

added-both :
    {X U F : Type 0} (o p : Run X U F)
    → Headless o
    → next_sum (λ r. next_sum (λ r'. returned (ok (combine r r'))) p) o ≡ both o p
added-both panicked p h = refl
added-both (returned (err e)) p h = refl
added-both (returned (ok r)) panicked h = refl
added-both (returned (ok r)) (returned (err e)) h = refl
added-both (returned (ok r)) (returned (ok r')) h =
    ap
      (λ t. returned (
        ok (record {
          header = t;
          direct = r.direct ++ r'.direct;
          simulated = r.simulated ++ r'.simulated;
        })))
      h

added-headless :
    {X U F : Type 0} (o : Run X U F)
    → next_sum (λ r. returned (ok (combine no_result r))) o ≡ headless o
added-headless panicked = refl
added-headless (returned (err e)) = refl
added-headless (returned (ok r)) = refl

next_document-Headless :
    {X U F : Type 0} (k : WriteResult X U → Run X U F)
    → ((s : WriteResult X U) → s.header ≡ "" → Headless (k s))
    → (b : Bool) (sum : WriteResult X U) (o : Run X U F) → sum.header ≡ ""
    → Headless (next_document b sum o k)
next_document-Headless k h true sum o e = h sum e
next_document-Headless k h false sum panicked e = tt
next_document-Headless k h false sum (returned (err x)) e = tt
next_document-Headless k h false sum (returned (ok r)) e = h (combine sum r) e

module _ {D X U E : Type 0} (y : Yaml D X U E) (nodes : List String) (image role : String) where
  abbrev from : WriteResult X U → List (Result E D) → Run X U (GenerateError E)
  from = generate_from y nodes image role

  from-append :
      (ds es : List (Result E D)) (sum : WriteResult X U)
      → from sum (ds ++ es) ≡ next_sum (λ r. from r es) (from sum ds)
  unfolding generate_from
  from-append [] es sum = refl
  from-append (err e ∷ ds) es sum = refl
  from-append (ok d ∷ ds) es sum = next_document-then _ _ _ (from-append ds es) (y.is_empty d) sum _

  from-added :
      (ds : List (Result E D)) (sum : WriteResult X U) → from sum ds ≡ added sum (from no_result ds)
  unfolding generate_from
  from-added [] sum = ap (λ r. returned (ok r)) (sym (combine-no_result sum))
  from-added (err e ∷ ds) sum = refl
  from-added (ok d ∷ ds) sum = next_document-sum _ (from-added ds) (y.is_empty d) sum _

  from-Headless :
      (ds : List (Result E D)) (sum : WriteResult X U) → sum.header ≡ "" → Headless (from sum ds)
  unfolding generate_from
  from-Headless [] sum h = h
  from-Headless (err e ∷ ds) sum h = tt
  from-Headless (ok d ∷ ds) sum h =
      next_document-Headless _ (from-Headless ds) (y.is_empty d) sum _ h

  -- Of two inputs put together, Generate makes the resources of the first and then those of the
  -- second, both the direct and the simulated ones, and what ends a run over the first, an error or a
  -- panic, ends this run. Of one document that is not empty it makes the resources of this document,
  -- without their header, and of an empty one, or of no document, none.
  pub generate-append :
      (ds es : List (Result E D))
      → (generate y nodes image role (ds ++ es)
          ≡ both (generate y nodes image role ds) (generate y nodes image role es))
        × ((d : D)
            → y.is_empty d ≡ false
            → generate y nodes image role (ok d ∷ [])
              ≡ headless (generate_document y nodes image role d))
        × ((d : D)
            → y.is_empty d ≡ true
            → generate y nodes image role (ok d ∷ [])
              ≡ returned (ok (record { header = ""; direct = []; simulated = [] })))
        × (generate y nodes image role []
            ≡ returned (ok (record { header = ""; direct = []; simulated = [] })))
  unfolding generate generate_from
  generate-append ds es = (
    from-append ds es no_result
        ∙ (next_sum_same _ _ (λ r. from-added es r) (from no_result ds)
            ∙ added-both (from no_result ds) (from no_result es) (from-Headless ds no_result refl)),
    λ d filled. rw (filled) (added-headless (generate_document y nodes image role d)),
    λ d bare. rw (bare) refl,
    refl,
  )
