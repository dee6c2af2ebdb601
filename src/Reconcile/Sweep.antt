-- ===== src/Reconcile/Sweep.antt =====
-- The loops of the reconcilers that delete the listed objects which fail a test, against an API
-- server without failures: `view` are the objects that it lists, and `frame` is the rest of it.
pub mod Tally
use daemonjob.Prelude.{
  String, ◌≡◌, refl, sym, subst, ◌∙◌, Bool, true, false, not, ◌&&◌, ◌||◌, List, [], ◌∷◌, ◌==◌, any,
  All, All-imp, delete_func, arith, eq_iff, eq_refl, if◌then◌else◌, Bool-cases, inl, inr,
}
use daemonjob.Result.{ok}
use daemonjob.Client.{Call, pure, ◌>>◌}

module _ {A : Type 0} (name : A → String) where
  abbrev pub named : String → A → Bool
  named n x = name x == n

  -- No name stands twice.
  abbrev pub Distinct : List A → Type 0
  Distinct [] = Unit
  Distinct (x ∷ xs) = (any (named (name x)) xs ≡ false) × Distinct xs

  pub any-named-delete_func :
      (n m : String) (xs : List A)
      → any (named n) (delete_func (named m) xs) ≡ (any (named n) xs && not (m == n))
  any-named-delete_func n m [] = refl
  any-named-delete_func n m (x ∷ xs) =
      ground (arith, any-named-delete_func n m xs, eq_iff (name x) m, eq_iff (name x) n, eq_iff m n)

delete_func-cong :
    {A : Type 0} (p q : A → Bool) (xs : List A)
    → All (λ x. p x ≡ q x) xs
    → delete_func p xs ≡ delete_func q xs
delete_func-cong p q [] h = refl
delete_func-cong p q (x ∷ xs) h = ground (arith, h.0, delete_func-cong p q xs h.1)

delete_func-twice :
    {A : Type 0} (p q : A → Bool) (xs : List A)
    → delete_func p (delete_func q xs) ≡ delete_func (λ x. q x || p x) xs
delete_func-twice p q [] = refl
delete_func-twice p q (x ∷ xs) = ground (arith, delete_func-twice p q xs)

everywhere : {A : Type 0} (P : A → Type 0) → ((x : A) → P x) → (xs : List A) → All P xs
everywhere P h [] = tt
everywhere P h (x ∷ xs) = (h x, everywhere P h xs)

-- for _, x := range xs { if bad(x) { if err := delete(x); err != nil { return err } } }
abbrev pub sweep :
    {A W E : Type 0} → (A → Bool) → (A → Call W E (Unit {0})) → List A → Call W E (Unit {0})
sweep bad delete [] = pure tt
sweep bad delete (x ∷ xs) =
    let rest = sweep bad delete xs in if bad x then delete x >> rest else rest

module _ {A : Type 0} (name : A → String) (bad : A → Bool) where
  -- Has the name of one of these that fails the test
  abbrev swept : List A → A → Bool
  swept xs y = any (λ x. bad x && named name (name y) x) xs

  swept_apart : (y : A) (xs : List A) → any (named name (name y)) xs ≡ false → swept xs y ≡ false
  swept_apart y [] h = refl
  swept_apart y (x ∷ xs) h = ground (arith, swept_apart y xs)

  swept_tail :
      (x : A) (xs ys : List A)
      → any (named name (name x)) ys ≡ false
      → All (λ y. swept xs y ≡ bad y) ys
      → All (λ y. swept (x ∷ xs) y ≡ bad y) ys
  swept_tail x xs [] apart h = tt
  swept_tail x xs (y ∷ ys) apart h = (
    ground (arith, h.0, eq_iff (name x) (name y), eq_iff (name y) (name x)),
    swept_tail x xs ys (ground arith) h.1,
  )

  swept-eq-bad : (xs : List A) → Distinct name xs → All (λ y. swept xs y ≡ bad y) xs
  swept-eq-bad [] h = tt
  swept-eq-bad (x ∷ xs) h = (
    ground (arith, eq_refl (name x), swept_apart x xs h.0),
    swept_tail x xs xs h.0 (swept-eq-bad xs h.1),
  )

  step_kept :
      (here : List A) (x : A) (xs : List A)
      → bad x ≡ false
      → delete_func (swept xs) here ≡ delete_func (swept (x ∷ xs)) here
  step_kept here x xs e = delete_func-cong _ _ here (everywhere _ (λ y. ground arith) here)

  step_swept :
      (here left : List A) (x : A) (xs : List A)
      → bad x ≡ true
      → left ≡ delete_func (named name (name x)) here
      → delete_func (swept xs) left ≡ delete_func (swept (x ∷ xs)) here
  step_swept here left x xs e h = rw (h) (
      delete_func-twice (swept xs) (named name (name x)) here
      ∙ delete_func-cong _ _ here (
          everywhere _ (λ y. ground (arith, eq_iff (name x) (name y), eq_iff (name y) (name x)))
            here))

  -- All are there.
  abbrev pub AllThere : List A → List A → Type 0
  AllThere here xs = All (λ x. any (named name (name x)) here ≡ true) xs

  there-cons : (x : A) (here xs : List A) → AllThere here xs → AllThere (x ∷ here) xs
  there-cons x here [] h = tt
  there-cons x here (y ∷ ys) h = (ground (arith, h.0), there-cons x here ys h.1)

  there_all : (xs : List A) → AllThere xs xs
  there_all [] = tt
  there_all (x ∷ xs) = (ground (arith, eq_refl (name x)), there-cons x xs xs (there_all xs))

  there-delete :
      (x : A) (here xs : List A)
      → any (named name (name x)) xs ≡ false
      → AllThere here xs
      → AllThere (delete_func (named name (name x)) here) xs
  there-delete x here [] apart h = tt
  there-delete x here (y ∷ ys) apart h = (
    ground (
      arith,
      h.0,
      any-named-delete_func name (name y) (name x) here,
      eq_iff (name x) (name y),
      eq_iff (name y) (name x),
    ),
    there-delete x here ys (ground arith) h.1,
  )

  module _ {W E F : Type 0} (delete : A → Call W E (Unit {0})) (view : W → List A) (frame : W → F)
      (deletes : (x : A) (w : W)
        → any (named name (name x)) (view w) ≡ true
        → (w' : W) × (delete x w ≡ (ok tt, w'))
          × (frame w' ≡ frame w)
          × (view w' ≡ delete_func (named name (name x)) (view w))) where
    sweep_part :
        (xs : List A) (w : W)
        → Distinct name xs
        → AllThere (view w) xs
        → (w' : W) × (sweep bad delete xs w ≡ (ok tt, w'))
          × (frame w' ≡ frame w)
          × (view w' ≡ delete_func (swept xs) (view w))
    sweep_part [] w apart there = (w, refl, refl, keep_all (view w))
      where
        keep_all : (ys : List A) → ys ≡ delete_func (λ y. false) ys
        keep_all [] = refl
        keep_all (y ∷ ys) = ground (arith, keep_all ys)
    sweep_part (x ∷ xs) w apart there = elim (Bool-cases (bad x)) [
      | inl e ↦
          let (w1, called, same, left) = deletes x w there.0 in
          let (w2, rest, same', left') = sweep_part xs w1 apart.1 (
            subst (λ here. AllThere here xs) (sym left)
              (there-delete x (view w) xs apart.0 there.1)) in
          (
            w2,
            rw (e) (rw (called) rest),
            same' ∙ same,
            left' ∙ step_swept (view w) (view w1) x xs e left,
          )
      | inr e ↦
          let (w2, rest, same', left') = sweep_part xs w apart.1 there.1 in
          (w2, rw (e) rest, same', left' ∙ step_kept (view w) x xs e)
    ]

    -- Of the objects there, exactly those that fail the test are deleted.
    pub sweep_all :
        (w : W)
        → Distinct name (view w)
        → (w' : W) × (sweep bad delete (view w) w ≡ (ok tt, w'))
          × (frame w' ≡ frame w)
          × (view w' ≡ delete_func bad (view w))
    sweep_all w apart =
        let (w', called, same, left) = sweep_part (view w) w apart (there_all (view w)) in
        (
          w',
          called,
          same,
          left ∙ delete_func-cong (swept (view w)) bad (view w) (swept-eq-bad (view w) apart),
        )
