-- ===== src/Ctl/Output.antt =====
-- internal/daemonjobctl/output.go, WriteYAML. The writer may fail at every call, and so may
-- yaml.Marshal, which is a parameter. fmt.Fprintln and fmt.Fprintf write their line by one call.
use daemonjob.Prelude.{String, ◌<>◌, List, [], ◌∷◌, ◌==◌, if◌then◌else◌}
use daemonjob.Result.{Result, ok, err}
use daemonjob.Client.{Call, pure, fail, wrap, ◌>>=◌, ◌>>◌}
use daemonjob.Ctl.Resource.{
  ApiObject, AnnotatedResource, WriteResult, set_type_meta, placeholder_uid,
}
use daemonjob.Ctl.Lines.{split_lines, trim_newlines}

-- The errors of WriteYAML: of the writer, and of Marshal with the context that is added to it
pub data WriteError (E M : Type 0) : Type 0 where
  write_failed : E → WriteError E M
  marshal_failed marshal_simulated_failed : M → WriteError E M

abbrev pub banner : String
banner =
    "# Generated by daemonjobctl (for preview/simulation purposes only; does not guarantee runtime behavior)"

abbrev pub preamble : List String
preamble =
    "---"
    ∷ "# Worker Jobs (simulated)"
    ∷ "# These Jobs are created at runtime by the broadcast container, not directly by the controller."
    ∷ ("# NOTE: ownerReference.uid is a placeholder ("
        <> (placeholder_uid <> "); the actual UID is assigned at runtime."))
    ∷ "#"
    ∷ []

abbrev pub commented : String → String
commented line = "# " <> line

module _ {X U W E M : Type 0} (write : String → Call W E (Unit {0}))
    (marshal : ApiObject X U → Result M String) where
  abbrev pub put : String → Call W (WriteError E M) (Unit {0})
  put text = wrap write_failed (write text)

  -- fmt.Fprintln
  abbrev pub put_line : String → Call W (WriteError E M) (Unit {0})
  put_line line = put (line <> "\n")

  unfoldable pub put_lines : List String → Call W (WriteError E M) (Unit {0})
  put_lines [] = pure tt
  put_lines (l ∷ ls) = let rest = put_lines ls in put_line l >> rest

  -- for line := range ...: fmt.Fprintf(w, "# %s\n", line)
  unfoldable pub put_comments : List String → Call W (WriteError E M) (Unit {0})
  put_comments [] = pure tt
  put_comments (l ∷ ls) = let rest = put_comments ls in put_line (commented l) >> rest

  abbrev pub put_header : String → Call W (WriteError E M) (Unit {0})
  put_header header = if header == "" then pure tt else put_comments (split_lines header)

  abbrev pub put_comment : String → Call W (WriteError E M) (Unit {0})
  put_comment comment = if comment == "" then pure tt else put_line (commented comment)

  abbrev pub checked : (M → WriteError E M) → Result M String → Call W (WriteError E M) String
  checked f (ok b) = pure b
  checked f (err m) = fail (f m)

  unfoldable pub put_direct : List (AnnotatedResource X U) → Call W (WriteError E M) (Unit {0})
  put_direct [] = pure tt
  put_direct (r ∷ rs) =
      let rest = put_direct rs in
      do
        b ← checked marshal_failed (marshal (set_type_meta r.object))
        put_line "---"
        put_comment r.comment
        put b
        rest

  unfoldable pub put_simulated : List (AnnotatedResource X U) → Call W (WriteError E M) (Unit {0})
  unfolding put_comments
  put_simulated [] = pure tt
  put_simulated (r ∷ rs) =
      let rest = put_simulated rs in
      do
        b ← checked marshal_simulated_failed (marshal (set_type_meta r.object))
        put_line "# ---"
        put_comment r.comment
        put_comments (split_lines (trim_newlines b))
        rest

  -- if len(r.Simulated) == 0 { return nil }
  abbrev pub put_block : List (AnnotatedResource X U) → Call W (WriteError E M) (Unit {0})
  put_block [] = pure tt
  put_block (r ∷ rs) = put_lines preamble >> put_simulated (r ∷ rs)

  unfoldable pub write_yaml : WriteResult X U → Call W (WriteError E M) (Unit {0})
  unfolding put_comments put_direct put_simulated put_lines
  write_yaml r = do put_line banner; put_header r.header; put_direct r.direct; put_block r.simulated
