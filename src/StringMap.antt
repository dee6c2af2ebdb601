-- ===== src/StringMap.antt =====
-- Go's map[string]string, as labels, annotations and selectors use it. A nil map is a `none` where
-- the program can meet one. The representation is private: clients have `map_laws`.
mod Entries
use Entries.{Entry, value_at, drop_key, value_at-drop_key, value_at-append}
use daemonjob.Prelude.{
  eq_refl, String, ◌≡◌, ◌↔◌, refl, Bool, true, false, List, [], ◌∷◌, ◌++◌, Option, none, some,
  Outcome, panicked, returned, arith, ◌==◌, eq_iff, all, is_some, or_else, if◌then◌else◌,
}

pub record StringMap : Type 0 where
  entries : List Entry

-- map[string]string{}
pub empty : StringMap
empty = record { entries = [] }

-- m[k] for the pair of results; the value alone is `get_or_zero`
unfoldable pub get : StringMap → String → Option String
unfolding value_at
get m k = value_at m.entries k

abbrev value_or_zero : Option String → String
value_or_zero none = ""
value_or_zero (some v) = v

-- m[k] where a missing key reads as the zero value
abbrev pub get_or_zero : StringMap → String → String
get_or_zero m k = value_or_zero (get m k)

-- delete(m, k)
unfoldable pub remove : StringMap → String → StringMap
unfolding drop_key
remove m k = record { entries = drop_key m.entries k }

-- m[k] = v
unfoldable pub insert : StringMap → String → String → StringMap
insert m k v = record { entries = record { key = k; value = v } ∷ m.entries }

-- maps.Copy(dst, src)
unfoldable pub copy : StringMap → StringMap → StringMap
copy dst src = record { entries = src.entries ++ dst.entries }

-- len(m) == 0
unfoldable pub is_empty : StringMap → Bool
is_empty m = elim (m.entries) [ [] ↦ true | _ ∷ _ ↦ false ]

-- maps.Copy(dst, src) where dst may be nil: a write to a nil map panics.
unfoldable pub copy_into : Option StringMap → StringMap → Outcome (Option StringMap)
copy_into none src = if is_empty src then returned none else panicked
copy_into (some dst) src = returned (some (copy dst src))

pub get-empty : (k : String) → get empty k ≡ none
unfolding get empty
get-empty k = refl

pub get-remove :
    (m : StringMap) (k j : String) → get (remove m k) j ≡ (if k == j then none else get m j)
unfolding get remove
get-remove m k j = value_at-drop_key m.entries k j

pub get-insert :
    (m : StringMap) (k v j : String) → get (insert m k v) j ≡ (if k == j then some v else get m j)
unfolding get insert
get-insert m k v j = refl

pub get-copy :
    (dst src : StringMap) (k : String) → get (copy dst src) k ≡ or_else (get src k) (get dst k)
unfolding get copy
get-copy dst src k = value_at-append src.entries dst.entries k

pub ruleset map_laws = (get-empty, get-remove, get-insert, get-copy)

-- Two maps with the same value, or none, at every key. Go's maps have no order.
abbrev pub SameMap : StringMap → StringMap → Type 0
SameMap m n = (k : String) → get m k ≡ get n k

-- What an equality-based label selector asks for: every key of the selector has its value.
-- This is the documented meaning of labels.SelectorFromSet(selector).Matches(labels).
abbrev pub Selects : StringMap → StringMap → Type 0
Selects selector labels = (k v : String) → get selector k ≡ some v → get labels k ≡ some v

pub Selects-empty : (labels : StringMap) → Selects empty labels
Selects-empty labels k v h = ground (arith, get-empty k)

pub Selects-insert :
    (selector labels : StringMap) (j w : String)
    → get labels j ≡ some w
    → Selects selector labels
    → Selects (insert selector j w) labels
Selects-insert selector labels j w here rest k v h =
    ground (arith, get-insert selector j w k, eq_iff j k, rest k v)

pub not-is_empty_of_get : (m : StringMap) (k v : String) → get m k ≡ some v → is_empty m ≡ false
unfolding get is_empty
not-is_empty_of_get m k v h = ground arith

pub get_unique : (m : StringMap) (k v w : String) → get m k ≡ some v → get m k ≡ some w → v ≡ w
get_unique m k v w p q = cc

-- A selector of a fixed key and of a key with a variable value.
pub Selects-two :
    (labels : StringMap) (i v j w name : String)
    → (j == i) ≡ false
    → get labels i ≡ some v
    → get labels j ≡ some w
    → Selects (insert (insert empty i v) j name) labels ↔ (name ≡ w)
Selects-two labels i v j w name apart p q = (
  λ sel. get_unique labels j name w (sel j name (simp (map_laws, eq_refl))) q,
  λ e. rw e (Selects-insert _ labels j w q (Selects-insert _ labels i v p (Selects-empty labels))),
)

-- The same with one more key of variable value.
pub Selects-three :
    (labels : StringMap) (i v j w k u name ns : String)
    → (j == i) ≡ false
    → (k == j) ≡ false
    → get labels i ≡ some v
    → get labels j ≡ some w
    → get labels k ≡ some u
    → Selects (insert (insert (insert empty i v) j name) k ns) labels ↔ ((ns ≡ u) × (name ≡ w))
Selects-three labels i v j w k u name ns apart apart' p q r = (
  λ sel. (
    get_unique labels k ns u (sel k ns (simp (map_laws, eq_refl))) r,
    get_unique labels j name w (sel j name (simp (map_laws, eq_refl, apart'))) q,
  ),
  λ (e, f).
      rw (e, f)
        (Selects-insert _ labels k u r
          (Selects-insert _ labels j w q (Selects-insert _ labels i v p (Selects-empty labels)))),
)

pub copy_into-some :
    (dst src : StringMap) → copy_into (some dst) src ≡ returned (some (copy dst src))
unfolding copy_into
copy_into-some dst src = refl

pub copy_into-none : (src : StringMap) → is_empty src ≡ false → copy_into none src ≡ panicked
unfolding copy_into
copy_into-none src h = rw h
