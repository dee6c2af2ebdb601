-- ===== src/Prelude/Text.antt =====
-- Joined text: strings.Join.
use Prim.Native.String.{String, ◌++◌ as ◌<>◌}
use mathlib.Core.List.{List}

abbrev pub join_from : String → String → List String → String
join_from sep x List.[] = x
join_from sep x (List.◌∷◌ y ys) = x <> (sep <> join_from sep y ys)

abbrev pub join : List String → String → String
join List.[] sep = ""
join (List.◌∷◌ x xs) sep = join_from sep x xs
