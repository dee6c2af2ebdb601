-- ===== src/Reconcile/Sweep/Tally.antt =====
-- Two lists without repeated names that have the same names are of one length.
use daemonjob.Prelude.{
  suc, length, String, ◌≡◌, refl, ap, sym, ◌∙◌, Bool, true, false, List, [], ◌∷◌, any, delete_func,
  arith, eq_iff, eq_refl,
}
use daemonjob.Reconcile.Sweep.{named, Distinct, any-named-delete_func}

module _ {A : Type 0} (name : A → String) where
  delete_func-absent :
      (n : String) (xs : List A)
      → any (named name n) xs ≡ false
      → delete_func (named name n) xs ≡ xs
  delete_func-absent n [] h = refl
  delete_func-absent n (x ∷ xs) h = ground (arith, delete_func-absent n xs)

  length-delete_func :
      (n : String) (xs : List A)
      → Distinct name xs
      → any (named name n) xs ≡ true
      → suc (length (delete_func (named name n) xs)) ≡ length xs
  length-delete_func n [] h e = cc
  length-delete_func n (x ∷ xs) h e =
      ground (arith, h.0, eq_iff (name x) n, delete_func-absent n xs, length-delete_func n xs h.1)

  any-delete_func-false :
      (p q : A → Bool) (xs : List A) → any p xs ≡ false → any p (delete_func q xs) ≡ false
  any-delete_func-false p q [] h = refl
  any-delete_func-false p q (x ∷ xs) h = ground (arith, any-delete_func-false p q xs)

  pub Distinct-delete_func :
      (p : A → Bool) (xs : List A) → Distinct name xs → Distinct name (delete_func p xs)
  Distinct-delete_func p [] h = tt
  Distinct-delete_func p (x ∷ xs) h =
      ground
        (arith, Distinct-delete_func p xs h.1, any-delete_func-false (named name (name x)) p xs h.0)

pub same_length :
    {A B : Type 0} (f : A → String) (g : B → String) (xs : List A) (ys : List B)
    → Distinct f xs
    → Distinct g ys
    → ((n : String) → any (named f n) xs ≡ any (named g n) ys)
    → length xs ≡ length ys
same_length f g [] [] p q h = refl
same_length f g [] (y ∷ ys) p q h = ground (arith, h (g y), eq_refl (g y))
same_length f g (x ∷ xs) ys p q h =
    ap suc (
      same_length f g xs (delete_func (named g (f x)) ys) p.1 (Distinct-delete_func g _ ys q)
        λ n. ground (arith, h n, p.0, any-named-delete_func g n (f x) ys, eq_iff (f x) n))
    ∙ length-delete_func g (f x) ys q (ground (arith, sym (h (f x)), eq_refl (f x)))
