-- ===== src/Ctl/Lines.antt =====
-- Text by lines: strings.Split at a newline, and strings.TrimRight of newlines.
use Prim.Native.Char.{Char}
use Prim.Native.String.{String, [], ◌∷◌}
use text.Mathlib.TextLemmas.{append_assoc, nil-append, cons-append}
use mathlib.Core.List
use mathlib.Core.List.{List, map}
use daemonjob.Prelude.{
  ◌<>◌, ◌≡◌, refl, ap, sym, ◌∙◌, Bool, true, false, ◌&&◌, ◌||◌, ◌==◌, if◌then◌else◌, Bool-cases,
  inl, inr, All, join, join_from, eq_iff, arith,
}

abbrev pub is_newline : Char → Bool
is_newline c = (c ∷ []) == "\n"

-- A character in front of the first line
abbrev onto_first : Char → List String → List String
onto_first c List.[] = List.◌∷◌ (c ∷ []) List.[]
onto_first c (List.◌∷◌ l ls) = List.◌∷◌ (c ∷ l) ls

-- strings.Split(s, "\n")
unfoldable pub split_lines : String → List String
split_lines [] = List.◌∷◌ "" List.[]
split_lines (c ∷ s) =
    let rest = split_lines s in if is_newline c then List.◌∷◌ "" rest else onto_first c rest

-- strings.TrimRight(s, "\n")
unfoldable pub trim_newlines : String → String
trim_newlines [] = []
trim_newlines (c ∷ s) =
    let rest = trim_newlines s in if is_newline c && rest == "" then "" else c ∷ rest

abbrev pub has_newline : String → Bool
has_newline [] = false
has_newline (c ∷ s) = is_newline c || has_newline s

abbrev pub OneLine : String → Type 0
OneLine s = has_newline s ≡ false

-- Each line with its newline
unfoldable pub unlines : List String → String
unlines List.[] = ""
unlines (List.◌∷◌ l ls) = l <> ("\n" <> unlines ls)

onto_first-OneLine :
    (c : Char) (ls : List String)
    → is_newline c ≡ false
    → All OneLine ls
    → All OneLine (onto_first c ls)
onto_first-OneLine c List.[] h p = ground arith
onto_first-OneLine c (List.◌∷◌ l ls) h p = ground arith

pub split_lines-OneLine : (s : String) → All OneLine (split_lines s)
unfolding split_lines
split_lines-OneLine [] = (refl, tt)
split_lines-OneLine (c ∷ s) = elim (Bool-cases (is_newline c)) [
  | inl h ↦ rw (h) (refl, split_lines-OneLine s)
  | inr h ↦ rw (h) (onto_first-OneLine c (split_lines s) h (split_lines-OneLine s))
]

abbrev newline : Char
newline = "\n"

newline-append : (t : String) → "\n" <> t ≡ newline ∷ t
newline-append t = cons-append newline [] t ∙ ap (λ u. newline ∷ u) (nil-append t)

split_lines-newline : (t : String) → split_lines ("\n" <> t) ≡ List.◌∷◌ "" (split_lines t)
split_lines-newline t = ap split_lines (newline-append t) ∙ unfold split_lines in refl

split_lines-char :
    (c : Char) (s : String)
    → is_newline c ≡ false
    → split_lines (c ∷ s) ≡ onto_first c (split_lines s)
unfolding split_lines
split_lines-char c s h = rw (h) refl

split_lines-break :
    (c : Char) (s : String)
    → is_newline c ≡ true
    → split_lines (c ∷ s) ≡ List.◌∷◌ "" (split_lines s)
unfolding split_lines
split_lines-break c s h = rw (h) refl

either_false : (a b : Bool) → (a || b) ≡ false → (a ≡ false) × (b ≡ false)
either_false a b h = ground arith

-- A line and a newline are the first line of a text.
pub split_lines-line :
    (l t : String) → OneLine l → split_lines (l <> ("\n" <> t)) ≡ List.◌∷◌ l (split_lines t)
split_lines-line [] t h = ap split_lines (nil-append ("\n" <> t)) ∙ split_lines-newline t
split_lines-line (c ∷ l) t h =
    let (hc, hl) = either_false (is_newline c) (has_newline l) h in
    ap split_lines (cons-append c l ("\n" <> t))
    ∙ (split_lines-char c (l <> ("\n" <> t)) hc ∙ ap (onto_first c) (split_lines-line l t hl))

-- Lines, each with its newline, split into these lines and an empty rest.
pub split_lines-unlines :
    (ls : List String)
    → All OneLine ls
    → split_lines (unlines ls) ≡ List.◌++◌ ls (List.◌∷◌ "" List.[])
unfolding unlines
split_lines-unlines List.[] h = unfold split_lines in refl
split_lines-unlines (List.◌∷◌ l ls) (h, hs) =
    split_lines-line l (unlines ls) h ∙ ap (List.◌∷◌ l) (split_lines-unlines ls hs)

split_lines_cons :
    (s : String) → (l : String) × (ls : List String) × (split_lines s ≡ List.◌∷◌ l ls)
split_lines_cons [] = ("", List.[], unfold split_lines in refl)
split_lines_cons (c ∷ s) = elim (Bool-cases (is_newline c)) [
  | inl h ↦ ("", split_lines s, split_lines-break c s h)
  | inr h ↦
      let (l, ls, e) = split_lines_cons s in
      (c ∷ l, ls, split_lines-char c s h ∙ ap (onto_first c) e)
]

join_from-char :
    (c : Char) (l : String) (ls : List String) → join_from "\n" (c ∷ l) ls ≡ c ∷ join_from "\n" l ls
join_from-char c l List.[] = refl
join_from-char c l (List.◌∷◌ m ls) = cons-append c l _

-- Joined again, the lines are the text.
pub join-split_lines : (s : String) → join (split_lines s) "\n" ≡ s
join-split_lines [] = unfold split_lines in refl
join-split_lines (c ∷ s) =
    let (l, ls, e) = split_lines_cons s in
    let rest : join_from "\n" l ls ≡ s = ap (λ ls. join ls "\n") (sym e) ∙ join-split_lines s in
    elim (Bool-cases (is_newline c)) [
      | inl h ↦
          ap (λ ls. join ls "\n") (split_lines-break c s h ∙ ap (List.◌∷◌ "") e)
          ∙ (nil-append _
              ∙ (ap (λ t. "\n" <> t) rest
                  ∙ (ap (λ t. t <> s) (sym ((eq_iff (c ∷ []) "\n").0 h))
                      ∙ (cons-append c [] s ∙ ap (λ u. c ∷ u) (nil-append s)))))
      | inr h ↦
          ap (λ ls. join ls "\n") (split_lines-char c s h ∙ ap (onto_first c) e)
          ∙ (join_from-char c l ls ∙ ap (λ u. c ∷ u) rest)
    ]

pub unlines-append : (ls ms : List String) → unlines (List.◌++◌ ls ms) ≡ unlines ls <> unlines ms
unfolding unlines
unlines-append List.[] ms = sym (nil-append (unlines ms))
unlines-append (List.◌∷◌ l ls) ms =
    ap (λ t. l <> ("\n" <> t)) (unlines-append ls ms)
    ∙ (ap (λ t. l <> t) (sym (append_assoc "\n" (unlines ls) (unlines ms)))
        ∙ sym (append_assoc l ("\n" <> unlines ls) (unlines ms)))

unlines-join_from :
    (l : String) (ls : List String) → unlines (List.◌∷◌ l ls) ≡ join_from "\n" l ls <> "\n"
unfolding unlines
unlines-join_from l List.[] = refl
unlines-join_from l (List.◌∷◌ m ls) =
    ap (λ t. l <> ("\n" <> t)) (unlines-join_from m ls)
    ∙ (ap (λ t. l <> t) (sym (append_assoc "\n" (join_from "\n" m ls) "\n"))
        ∙ sym (append_assoc l ("\n" <> join_from "\n" m ls) "\n"))

-- The lines of a text, each with its newline, are the text with a newline.
pub unlines-split_lines : (s : String) → unlines (split_lines s) ≡ s <> "\n"
unlines-split_lines s =
    let (l, ls, e) = split_lines_cons s in
    ap unlines e
    ∙ (unlines-join_from l ls
        ∙ ap (λ t. t <> "\n") (ap (λ ls. join ls "\n") (sym e) ∙ join-split_lines s))

-- Lines and an empty rest, joined, are the lines each with its newline.
pub join-unlines : (ls : List String) → join (List.◌++◌ ls (List.◌∷◌ "" List.[])) "\n" ≡ unlines ls
unfolding unlines
join-unlines List.[] = refl
join-unlines (List.◌∷◌ l List.[]) = refl
join-unlines (List.◌∷◌ l (List.◌∷◌ m ls)) =
    ap (λ t. l <> ("\n" <> t)) (join-unlines (List.◌∷◌ m ls))
