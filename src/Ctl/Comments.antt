-- ===== src/Ctl/Comments.antt =====
-- The simulated resources in the output: they are comments, and can be read back.

use text.Mathlib.TextLemmas.{append_assoc, nil-append, append-nil, cons-append}
use mathlib.Core.List.{map}
use daemonjob.Prelude.{
  String, ◌<>◌, ◌≡◌, refl, ap, sym, ◌∙◌, List, [], ◌∷◌, ◌++◌, ◌==◌, if◌then◌else◌, All, join,
  Bool-cases, inl, inr,
}
use daemonjob.Result.{ok}
use daemonjob.Ctl.Resource.{ApiObject, AnnotatedResource, WriteResult}
use daemonjob.Ctl.Lines.{
  split_lines, trim_newlines, OneLine, unlines, split_lines-OneLine, split_lines-unlines,
  join-unlines, unlines-append, unlines-split_lines, has_newline,
}
use daemonjob.Ctl.Output.{
  commented, preamble, put_lines, put_line, put_header, put_direct, put_block, write_yaml, banner,
}
use daemonjob.Ctl.Written.{
  append, Writes, Writes-then, Writes-subst, Writes-none, Writes-put_lines, Writes-put_simulated,
  Writes-put_header, Writes-put_direct, direct_text, succeed, document, contents, comment_lines,
}

-- A line without the two characters in front of it
abbrev pub uncommented : String → String
uncommented String.[] = ""
uncommented (String.◌∷◌ c String.[]) = ""
uncommented (String.◌∷◌ c (String.◌∷◌ d s)) = s

-- A text with its comment marks removed, line by line
abbrev pub uncomment : String → String
uncomment text = join (map uncommented (split_lines text)) "\n"

commented_chars : (l : String) → commented l ≡ String.◌∷◌ "#" (String.◌∷◌ " " l)
commented_chars l =
    cons-append "#" " " l
    ∙ ap (String.◌∷◌ "#") (cons-append " " "" l ∙ ap (String.◌∷◌ " ") (nil-append l))

uncommented-commented : (l : String) → uncommented (commented l) ≡ l
uncommented-commented l = ap uncommented (commented_chars l)

commented-OneLine : (l : String) → OneLine l → OneLine (commented l)
commented-OneLine l h = ap has_newline (commented_chars l) ∙ h

All-append : (ls ms : List String) → All OneLine ls → All OneLine ms → All OneLine (ls ++ ms)
All-append [] ms h k = k
All-append (l ∷ ls) ms h k = (h.0, All-append ls ms h.1 k)

comment_lines-OneLine : (c : String) → OneLine c → All OneLine (comment_lines c)
comment_lines-OneLine c h = elim (Bool-cases (c == "")) [
  | inl e ↦ rw (e) tt
  | inr e ↦ rw (e) (h, tt)
]

map-commented-OneLine : (ls : List String) → All OneLine ls → All OneLine (map commented ls)
map-commented-OneLine [] h = tt
map-commented-OneLine (l ∷ ls) h = (commented-OneLine l h.0, map-commented-OneLine ls h.1)

uncommented_all : (ls : List String) → map uncommented (map commented ls ++ "" ∷ []) ≡ ls ++ "" ∷ []
uncommented_all [] = refl
uncommented_all (l ∷ ls) = λ i. uncommented-commented l i ∷ uncommented_all ls i

uncomment-unlines :
    (ls : List String) → All OneLine ls → uncomment (unlines (map commented ls)) ≡ unlines ls
uncomment-unlines ls h =
    ap (λ ls. join (map uncommented ls) "\n")
      (split_lines-unlines (map commented ls) (map-commented-OneLine ls h))
    ∙ (ap (λ ls. join ls "\n") (uncommented_all ls) ∙ join-unlines ls)

unlines-comment_lines :
    (c : String) → unlines (comment_lines c) ≡ (if c == "" then "" else c <> "\n")
unfolding unlines
unlines-comment_lines c = elim (Bool-cases (c == "")) [ inl h ↦ rw (h) refl | inr h ↦ rw (h) refl ]

unlines_cons : (l : String) (ls : List String) → unlines (l ∷ ls) ≡ (l <> "\n") <> unlines ls
unfolding unlines
unlines_cons l ls = sym (append_assoc l "\n" (unlines ls))

regroup : (a b c d : String) → a <> (b <> (c <> d)) ≡ (a <> (b <> c)) <> d
regroup a b c d = ap (λ t. a <> t) (sym (append_assoc b c d)) ∙ sym (append_assoc a (b <> c) d)

abbrev pub IsComment : String → Type 0
IsComment line = (s : String) × (line ≡ "#" <> s)

commented-IsComment : (ls : List String) → All IsComment (map commented ls)
commented-IsComment [] = tt
commented-IsComment (l ∷ ls) = ((" " <> l, append_assoc "#" " " l), commented-IsComment ls)

abbrev pub Uncluttered : {X U : Type 0} → AnnotatedResource X U → Type 0
Uncluttered r = OneLine r.comment

module _ {X U : Type 0} (yaml : ApiObject X U → String) where
  -- The documents of the resources as plain YAML, each with its comment as the first line
  abbrev pub plain : List (AnnotatedResource X U) → String
  plain [] = ""
  plain (r ∷ rs) =
      "---\n"
      <> ((if r.comment == "" then "" else r.comment <> "\n")
          <> ((trim_newlines (document yaml r) <> "\n") <> plain rs))

  contents-OneLine :
      (rs : List (AnnotatedResource X U)) → All Uncluttered rs → All OneLine (contents yaml rs)
  contents-OneLine [] h = tt
  contents-OneLine (r ∷ rs) h = (
    refl,
    All-append (comment_lines r.comment) _ (comment_lines-OneLine r.comment h.0) (
        All-append (split_lines (trim_newlines (document yaml r))) _ (split_lines-OneLine _)
          (contents-OneLine rs h.1)),
  )

  unlines-contents : (rs : List (AnnotatedResource X U)) → unlines (contents yaml rs) ≡ plain rs
  unlines-contents [] = unfold unlines in refl
  unlines-contents (r ∷ rs) =
      unlines_cons "---" _
      ∙ ap (λ t. "---\n" <> t)
          (unlines-append (comment_lines r.comment) _
            ∙ (ap
                  (λ t.
                    t
                    <> unlines (split_lines (trim_newlines (document yaml r)) ++ contents yaml rs))
                  (unlines-comment_lines r.comment)
                ∙ ap (λ t. (if r.comment == "" then "" else r.comment <> "\n") <> t)
                    (unlines-append (split_lines (trim_newlines (document yaml r)))
                        (contents yaml rs)
                      ∙ (ap (λ t. t <> unlines (contents yaml rs))
                            (unlines-split_lines (trim_newlines (document yaml r)))
                          ∙ ap (λ t. (trim_newlines (document yaml r) <> "\n") <> t)
                              (unlines-contents rs)))))

  -- The output before the simulated resources
  abbrev front : (header : String) → List (AnnotatedResource X U) → String
  front header rs =
      (banner <> "\n")
      <> ((if header == "" then "" else unlines (map commented (split_lines header)))
          <> direct_text yaml rs)

  module _ {E M : Type 0} where
    Writes-block :
        (s : AnnotatedResource X U) (ss : List (AnnotatedResource X U))
        → Writes
            (put_block {E = E} {M = M} append (succeed yaml) (s ∷ ss))
            (unlines preamble <> unlines (map commented (contents yaml (s ∷ ss))))
    Writes-block s ss =
        Writes-then (put_lines append (succeed yaml) preamble) _ _ _
          (Writes-put_lines yaml preamble) (Writes-put_simulated yaml (s ∷ ss))

    Writes-write_yaml :
        (r : WriteResult X U) (text : String)
        → Writes (put_block {E = E} {M = M} append (succeed yaml) r.simulated) text
        → Writes
            (write_yaml {E = E} {M = M} append (succeed yaml) r)
            (front r.header r.direct <> text)
    unfolding write_yaml
    Writes-write_yaml r text h =
        Writes-subst
          (Writes-then (put_line append (succeed yaml) banner) _ _ _ (λ w. refl)
            (Writes-then (put_header append (succeed yaml) r.header) _ _ _
              (Writes-put_header yaml r.header)
              (Writes-then (put_direct append (succeed yaml) r.direct) _ _ _
                (Writes-put_direct yaml r.direct) h)))
          (regroup (banner <> "\n") _ (direct_text yaml r.direct) text)

module _ {X U E M : Type 0} (yaml : ApiObject X U → String) where
  block_text :
      (rs : List (AnnotatedResource X U))
      → (text : String) × Writes (put_block {E = E} {M = M} append (succeed yaml) rs) text
  block_text [] = ("", Writes-none)
  block_text (s ∷ ss) = (_, Writes-block yaml s ss)

  -- Where neither the writer nor yaml.Marshal fails, WriteYAML does not fail.
  pub write_yaml_text :
      (r : WriteResult X U)
      → (text : String) × (write_yaml {E = E} {M = M} append (succeed yaml) r "" ≡ (ok tt, text))
  write_yaml_text r =
      let (block, writes) = block_text r.simulated in (_, Writes-write_yaml yaml r block writes "")

-- Where neither the writer nor yaml.Marshal fails, and no comment of a simulated resource has a
-- newline: with simulated resources the output is what it is without them, then the preamble, and
-- then a block in which every line is a comment. With the comment marks taken away, the block is the
-- documents of the simulated resources, each after its separator and its comment.
pub write_yaml-uncomment :
    {X U E M : Type 0} (yaml : ApiObject X U → String) (r : WriteResult X U)
    (s : AnnotatedResource X U) (ss : List (AnnotatedResource X U))
    → All Uncluttered (s ∷ ss)
    → (front block : String) × (marks : List String) × (write_yaml {E = E} {M = M} append
          (succeed yaml)
          (record r { simulated = [] })
          ""
        ≡ (ok tt, front))
      × (write_yaml {E = E} {M = M} append (succeed yaml) (record r { simulated = s ∷ ss }) ""
          ≡ (ok tt, front <> (unlines preamble <> block)))
      × (split_lines block ≡ marks ++ "" ∷ [])
      × All IsComment marks
      × (uncomment block ≡ plain yaml (s ∷ ss))
write_yaml-uncomment yaml r s ss h =
    let before = front yaml r.header r.direct in
    let lines = map commented (contents yaml (s ∷ ss)) in
    let clean = contents-OneLine yaml (s ∷ ss) h in
    (
      before,
      unlines lines,
      lines,
      Writes-write_yaml yaml (record r { simulated = [] }) "" Writes-none ""
          ∙ ap (λ t. (ok tt, t)) (nil-append _ ∙ append-nil before),
      Writes-write_yaml yaml (record r { simulated = s ∷ ss }) _ (Writes-block yaml s ss) ""
          ∙ ap (λ t. (ok tt, t)) (nil-append _),
      split_lines-unlines lines (map-commented-OneLine (contents yaml (s ∷ ss)) clean),
      commented-IsComment (contents yaml (s ∷ ss)),
      uncomment-unlines (contents yaml (s ∷ ss)) clean ∙ unlines-contents yaml (s ∷ ss),
    )
