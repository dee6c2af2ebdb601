-- ===== src/Ctl/Command/Outcomes.antt =====
-- How the command generate ends.
use mathlib.Core.List.{append_assoc, append-nil, cons-ne-nil}
use daemonjob.Prelude.{
  String, ◌≡◌, refl, sym, ◌∙◌, ◌≢◌, ◌⊎◌, inl, inr, List, [], ◌∷◌, ◌++◌, map, ◌==◌, Outcome,
  panicked, returned, Bool-cases, delete_func,
}
use daemonjob.Result.{Result, ok, err}
use daemonjob.Client.{Call, recover}
use daemonjob.Ctl.Resource.{ApiObject, WriteResult}
use daemonjob.Ctl.Manifest.{Yaml, GenerateError}
use daemonjob.Ctl.Generate.{generate}
use daemonjob.Ctl.Output.{write_yaml}
use daemonjob.Ctl.Command.{
  CommandError, output_error, generate_error, read_error, nodes_required, no_node_name,
  split_commas, node_list, run_generate, write_result, read_manifest, with_nodes,
}

-- The names among the parts: trimmed, and those that are not blank
abbrev pub names_in : (trim_space : String → String) → List String → List String
names_in trim_space parts = delete_func (λ n. n == "") (map trim_space parts)

node_list-names_in :
    (trim_space : String → String) (ps nodes : List String)
    → node_list trim_space nodes ps ≡ nodes ++ names_in trim_space ps
unfolding node_list
node_list-names_in trim_space [] nodes = sym (append-nil nodes)
node_list-names_in trim_space (p ∷ ps) nodes = elim (Bool-cases (trim_space p == "")) [
  | inl h ↦ rw (h) (node_list-names_in trim_space ps nodes)
  | inr h ↦ rw (h) (
      node_list-names_in trim_space ps (nodes ++ trim_space p ∷ [])
      ∙ append_assoc nodes (trim_space p ∷ []) (names_in trim_space ps))
]

module _ {D X U W R E F M : Type 0} (write : String → Call W F (Unit {0}))
    (marshal : ApiObject X U → Result M String) (y : Yaml D X U E)
    (decode : String → List (Result E D)) (trim_space : String → String) (nodes image role : String)
    (raw : Result R String) (w : W) where
  -- The command generates with all names in its flag, of which there is one at least.
  abbrev pub Generates :
      List String → String → Outcome (Result (GenerateError E) (WriteResult X U)) → Type 0
  Generates names text o =
      (names ≡ names_in trim_space (split_commas nodes))
      × (names ≢ [])
      × (raw ≡ ok text)
      × (generate y names image role (decode text) ≡ o)

  abbrev pub Ended : Outcome (Result (CommandError R E F M) (Unit {0}) × W) → Type 0
  Ended o =
      ((e : CommandError R E F M) × (o ≡ returned (err e, w)))
      ⊎ (((names : List String) × (text : String) × Generates names text panicked × (o ≡ panicked))
          ⊎ ((names : List String) × (text : String) × (r : WriteResult X U) × Generates names text
                (returned (ok r))
              × (o ≡ returned (recover output_error (write_yaml write marshal r w)))))

  written-Ended :
      (names : List String) (text : String)
      → names ≡ names_in trim_space (split_commas nodes)
      → names ≢ []
      → raw ≡ ok text
      → (o : Outcome (Result (GenerateError E) (WriteResult X U)))
      → generate y names image role (decode text) ≡ o
      → Ended (write_result write marshal y decode trim_space o w)
  written-Ended names text n m t panicked e = inr (inl (names, text, (n, m, t, e), refl))
  written-Ended names text n m t (returned (err x)) e = inl (generate_error x, refl)
  written-Ended names text n m t (returned (ok r)) e =
      inr (inr (names, text, r, (n, m, t, e), refl))

  read-Ended :
      (names : List String) (t : Result R String)
      → names ≡ names_in trim_space (split_commas nodes)
      → names ≢ []
      → raw ≡ t
      → Ended (read_manifest write marshal y decode trim_space names image role t w)
  read-Ended names (err e) n m h = inl (read_error e, refl)
  read-Ended names (ok text) n m h = written-Ended names text n m h _ refl

  with_nodes-Ended :
      (names : List String)
      → names ≡ names_in trim_space (split_commas nodes)
      → Ended (with_nodes write marshal y decode trim_space names image role raw w)
  with_nodes-Ended [] n = inl (no_node_name, refl)
  with_nodes-Ended (m ∷ ms) n = read-Ended (m ∷ ms) raw n (cons-ne-nil m ms) refl

  -- The command generate ends in one of three ways: with an error and nothing written; with a panic,
  -- where Generate panics; or with the output of WriteYAML, or its error, for a result of Generate.
  -- In the last two cases Generate got the trimmed names between the commas of the flag that are not
  -- blank, of which there was one at least, and the whole input.
  pub run_generate-Ended :
      Ended (run_generate write marshal y decode trim_space nodes image role raw w)
  unfolding run_generate
  run_generate-Ended = elim (Bool-cases (nodes == "")) [
    | inl h ↦ rw (h) (inl (nodes_required, refl))
    | inr h ↦ rw (h) (
        with_nodes-Ended (node_list trim_space [] (split_commas nodes))
          (node_list-names_in trim_space (split_commas nodes) []))
  ]
