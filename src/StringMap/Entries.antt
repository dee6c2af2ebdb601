-- ===== src/StringMap/Entries.antt =====
-- The entries behind a map, the newest first. A key may stand in several of them: the first counts,
-- and a deletion takes out all.
use daemonjob.Prelude.{
  String, ◌≡◌, refl, List, [], ◌∷◌, ◌++◌, Option, none, some, arith, ◌==◌, eq_iff, or_else,
  delete_func, if◌then◌else◌,
}

pub record Entry : Type 0 where
  pub key : String
  pub value : String

unfoldable pub value_at : List Entry → String → Option String
value_at [] k = none
value_at (e ∷ es) k = if e.key == k then some e.value else value_at es k

unfoldable pub drop_key : List Entry → String → List Entry
drop_key es k = delete_func (λ e. e.key == k) es

pub value_at-drop_key :
    (es : List Entry) (k j : String)
    → value_at (drop_key es k) j ≡ (if k == j then none else value_at es j)
unfolding value_at drop_key
value_at-drop_key [] k j = ground arith
value_at-drop_key (e ∷ es) k j =
    ground (arith, value_at-drop_key es k j, eq_iff e.key k, eq_iff e.key j, eq_iff k j)

-- The entries of a second list, before those of the first
pub value_at-append :
    (new old : List Entry) (k : String)
    → value_at (new ++ old) k ≡ or_else (value_at new k) (value_at old k)
unfolding value_at
value_at-append [] old k = refl
value_at-append (e ∷ new) old k = ground (arith, value_at-append new old k)
