-- ===== src/Models/Artifact/Declared.antt =====
-- The declarations that an execution collects one by one (tasklite/models/artifact.py).
use tasklite.Common.{
  false, ◌≡◌, refl, sym, ◌∙◌, none, some, List, [], ◌∷◌, ◌++◌, if◌then◌else◌, arith, Option-cases,
  Bool-cases, inl, inr,
}
use tasklite.Models.Job.{◌>>=◌}
use tasklite.Models.Artifact.{
  ArtifactDeclaration, Paths, is_conflict, is_new, same_declaration, accept, accept_all,
  validate_artifact_declarations, append_after, append_artifact_declaration,
}

module _ ⦃p : Paths⦄ where
  -- Two declarations that differ are accepted together unless they conflict.
  pair_accepted :
      (old d : ArtifactDeclaration)
      → same_declaration old d ≡ false
      → validate_artifact_declarations (old ∷ d ∷ [])
        ≡ (if is_conflict old d then none else some (old ∷ d ∷ []))
  unfolding validate_artifact_declarations accept_all accept is_new
  pair_accepted old d e = ground arith

  append_after-is_new :
      (previous : List ArtifactDeclaration) (d : ArtifactDeclaration)
      (left : List ArtifactDeclaration)
      → append_after previous d left
        ≡ (is_new left d >>= λ fresh. some (if fresh then previous ++ d ∷ [] else previous))
  unfolding append_after is_new
  append_after-is_new previous d [] = refl
  append_after-is_new previous d (old ∷ more) = elim (Bool-cases (same_declaration old d)) [
    | inl e ↦ rw e refl
    | inr e ↦
        rw e (rw (pair_accepted old d e) (ground (arith, append_after-is_new previous d more)))
  ]

  accept_all-append :
      (accepted ds : List ArtifactDeclaration) (d : ArtifactDeclaration)
      → accept_all accepted (ds ++ d ∷ []) ≡ (accept_all accepted ds >>= λ all. accept all d)
  unfolding accept_all
  accept_all-append accepted [] d = elim (Option-cases (accept accepted d)) [
    | inl e ↦ rw e refl
    | inr (x, e) ↦ rw e refl
  ]
  accept_all-append accepted (x ∷ ds) d = elim (Option-cases (accept accepted x)) [
    | inl e ↦ rw e refl
    | inr (more, e) ↦ rw e (accept_all-append more ds d)
  ]

  -- Declaring one more file, compared with the files before it one at a time, answers what the
  -- validation of the whole list at the end answers: the same files or the same refusal.
  pub append_artifact_declaration_lem :
      (declared previous : List ArtifactDeclaration) (d : ArtifactDeclaration)
      → validate_artifact_declarations declared ≡ some previous
      → append_artifact_declaration previous d ≡ validate_artifact_declarations (declared ++ d ∷ [])
  unfolding append_artifact_declaration validate_artifact_declarations accept
  append_artifact_declaration_lem declared previous d e =
      append_after-is_new previous d previous ∙ sym (accept_all-append [] declared d ∙ rw e refl)
