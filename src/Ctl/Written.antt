-- ===== src/Ctl/Written.antt =====
-- What WriteYAML writes where neither the writer nor yaml.Marshal fails.
use text.Mathlib.TextLemmas.{append_assoc, nil-append, append-nil}
use daemonjob.Prelude.{
  String, ◌<>◌, ◌≡◌, refl, ap, sym, ◌∙◌, List, [], ◌∷◌, ◌++◌, map, ◌==◌, if◌then◌else◌, Bool-cases,
  inl, inr,
}
use daemonjob.Result.{Result, ok}
use daemonjob.Client.{Call, pure, ◌>>◌}
use daemonjob.Ctl.Resource.{ApiObject, AnnotatedResource, set_type_meta}
use daemonjob.Ctl.Lines.{split_lines, trim_newlines, unlines}
use daemonjob.Ctl.Output.{
  commented, put, put_line, put_lines, put_comments, put_comment, put_header, put_direct,
  put_simulated,
}

-- A writer that never fails and keeps what was written
abbrev pub append : {E : Type 0} → String → Call String E (Unit {0})
append text w = (ok tt, w <> text)

-- The call succeeds and writes this text, after whatever was written.
abbrev pub Writes : {F : Type 0} → Call String F (Unit {0}) → String → Type 0
Writes m text = (w : String) → m w ≡ (ok tt, w <> text)

pub Writes-none : {F : Type 0} → Writes (pure {E = F} tt) ""
Writes-none w = ap (λ t. (ok tt, t)) (sym (append-nil w))

pub Writes-then :
    {F : Type 0} (m n : Call String F (Unit {0})) (s t : String)
    → Writes m s
    → Writes n t
    → Writes (m >> n) (s <> t)
Writes-then m n s t hm hn w = rw (hm w) (hn (w <> s)) ∙ ap (λ u. (ok tt, u)) (append_assoc w s t)

pub Writes-subst :
    {F : Type 0} {m : Call String F (Unit {0})} {s t : String} → Writes m s → s ≡ t → Writes m t
Writes-subst h e w = h w ∙ ap (λ u. (ok tt, w <> u)) e

-- The line of a comment, if there is one
abbrev pub comment_lines : String → List String
comment_lines comment = if comment == "" then [] else comment ∷ []

unlines-commented :
    (xs ys : List String)
    → unlines (map commented (xs ++ ys)) ≡ unlines (map commented xs) <> unlines (map commented ys)
unfolding unlines
unlines-commented [] ys = sym (nil-append _)
unlines-commented (x ∷ xs) ys =
    ap (λ t. commented x <> ("\n" <> t)) (unlines-commented xs ys)
    ∙ (ap (λ t. commented x <> t) (sym (append_assoc "\n" _ _))
        ∙ sym (append_assoc (commented x) _ _))

unlines-document :
    (xs ys zs : List String)
    → "# ---\n"
        <> (unlines (map commented xs)
            <> (unlines (map commented ys) <> unlines (map commented zs)))
      ≡ unlines (map commented ("---" ∷ (xs ++ (ys ++ zs))))
unfolding unlines
unlines-document xs ys zs =
    ap (λ t. "# ---\n" <> (unlines (map commented xs) <> t)) (sym (unlines-commented ys zs))
    ∙ (ap (λ t. "# ---\n" <> t) (sym (unlines-commented xs (ys ++ zs)))
        ∙ append_assoc "# ---" "\n" _)

-- yaml.Marshal succeeds with this text.
abbrev pub succeed : {X U M : Type 0} → (ApiObject X U → String) → ApiObject X U → Result M String
succeed yaml o = ok (yaml o)

module _ {X U : Type 0} (yaml : ApiObject X U → String) where
  abbrev pub document : AnnotatedResource X U → String
  document r = yaml (set_type_meta r.object)

  -- The lines that a simulated resource is written as, before each is made a comment
  abbrev pub contents : List (AnnotatedResource X U) → List String
  contents [] = []
  contents (r ∷ rs) =
      "---" ∷ (comment_lines r.comment ++ (split_lines (trim_newlines (document r)) ++ contents rs))

  abbrev pub direct_text : List (AnnotatedResource X U) → String
  direct_text [] = ""
  direct_text (r ∷ rs) =
      "---\n"
      <> (unlines (map commented (comment_lines r.comment)) <> (document r <> direct_text rs))

  module _ {E M : Type 0} where
    pub Writes-put_lines :
        (ls : List String)
        → Writes (put_lines {E = E} {M = M} append (succeed yaml) ls) (unlines ls)
    unfolding put_lines unlines
    Writes-put_lines [] = Writes-none
    Writes-put_lines (l ∷ ls) =
        Writes-subst
          (Writes-then (put_line append (succeed yaml) l) (put_lines append (succeed yaml) ls)
            (l <> "\n") (unlines ls) (λ w. refl) (Writes-put_lines ls))
          (append_assoc l "\n" (unlines ls))

    Writes-put_comments :
        (ls : List String)
        → Writes
            (put_comments {E = E} {M = M} append (succeed yaml) ls)
            (unlines (map commented ls))
    unfolding put_comments unlines
    Writes-put_comments [] = Writes-none
    Writes-put_comments (l ∷ ls) =
        Writes-subst
          (Writes-then (put_line append (succeed yaml) (commented l))
            (put_comments append (succeed yaml) ls) (commented l <> "\n")
            (unlines (map commented ls)) (λ w. refl) (Writes-put_comments ls))
          (append_assoc (commented l) "\n" (unlines (map commented ls)))

    Writes-put_comment :
        (c : String)
        → Writes
            (put_comment {E = E} {M = M} append (succeed yaml) c)
            (unlines (map commented (comment_lines c)))
    unfolding unlines
    Writes-put_comment c = elim (Bool-cases (c == "")) [
      | inl h ↦ rw (h) Writes-none
      | inr h ↦ rw (h) (λ w. refl)
    ]

    pub Writes-put_header :
        (h : String)
        → Writes
            (put_header {E = E} {M = M} append (succeed yaml) h)
            (if h == "" then "" else unlines (map commented (split_lines h)))
    Writes-put_header h = elim (Bool-cases (h == "")) [
      | inl e ↦ rw (e) Writes-none
      | inr e ↦ rw (e) (Writes-put_comments (split_lines h))
    ]

    pub Writes-put_direct :
        (rs : List (AnnotatedResource X U))
        → Writes (put_direct {E = E} {M = M} append (succeed yaml) rs) (direct_text rs)
    unfolding put_direct
    Writes-put_direct [] = Writes-none
    Writes-put_direct (r ∷ rs) =
        Writes-then (put_line append (succeed yaml) "---") _ "---\n" _ (λ w. refl)
          (Writes-then (put_comment append (succeed yaml) r.comment) _ _ _
            (Writes-put_comment r.comment)
            (Writes-then (put append (succeed yaml) (document r)) _ (document r) _ (λ w. refl)
              (Writes-put_direct rs)))

    pub Writes-put_simulated :
        (rs : List (AnnotatedResource X U))
        → Writes
            (put_simulated {E = E} {M = M} append (succeed yaml) rs)
            (unlines (map commented (contents rs)))
    unfolding put_simulated
    Writes-put_simulated [] = unfold unlines in Writes-none
    Writes-put_simulated (r ∷ rs) =
        Writes-subst
          (Writes-then (put_line append (succeed yaml) "# ---") _ "# ---\n" _ (λ w. refl)
            (Writes-then (put_comment append (succeed yaml) r.comment) _ _ _
              (Writes-put_comment r.comment)
              (Writes-then
                (put_comments append (succeed yaml) (split_lines (trim_newlines (document r)))) _ _
                _ (Writes-put_comments (split_lines (trim_newlines (document r))))
                (Writes-put_simulated rs))))
          (unlines-document (comment_lines r.comment) (split_lines (trim_newlines (document r)))
            (contents rs))
