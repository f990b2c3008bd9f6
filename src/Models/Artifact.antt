-- ===== src/Models/Artifact.antt =====
-- tasklite/models/artifact.py: the files that an execution declares.
pub mod Declared
use tasklite.Common.{
  String, Bool, true, false, not, ◌&&◌, ◌||◌, Option, none, some, List, [], ◌∷◌, ◌++◌, eq_string,
  ◌==◌, if◌then◌else◌,
}
use tasklite.Models.Job.{◌>>=◌, ◌>>◌, forbid}

pub record ArtifactDeclaration : Type 0 where
  pub path : String
  pub name : Option String
  pub delete_existing : Bool
  pub delete_on_failure : Bool
  pub delete_on_success : Bool
  pub sandbox : Bool

-- What `os.path` and `pathlib` say of texts: whether one is an absolute path without null bytes,
-- whether it is normalized, and whether the first of two lies below the second.
pub record Paths : Type 0 where
  pub is_absolute : String → Bool
  pub is_normalized : String → Bool
  pub is_relative_to : String → String → Bool

abbrev is_empty_name : Option String → Bool
is_empty_name none = false
is_empty_name (some name) = name == ""

abbrev is_named : Option String → Bool
is_named none = false
is_named (some name) = true

unfoldable pub same_name : Option String → Option String → Bool
same_name (some a) (some b) = a == b
same_name _ _ = false

abbrev same_flag : Bool → Bool → Bool
same_flag true b = b
same_flag false b = not b

same_option : Option String → Option String → Bool
unfolding same_name
same_option none none = true
same_option a b = same_name a b

-- `previous == declaration`
unfoldable pub same_declaration : ArtifactDeclaration → ArtifactDeclaration → Bool
unfolding same_option
same_declaration a b =
    a.path == b.path
    && same_option a.name b.name
    && same_flag a.delete_existing b.delete_existing
    && same_flag a.delete_on_failure b.delete_on_failure
    && same_flag a.delete_on_success b.delete_on_success
    && same_flag a.sandbox b.sandbox

module _ ⦃p : Paths⦄ where
  -- `ArtifactDeclaration.__post_init__`; `none` is an exception.
  unfoldable pub new_declaration : ArtifactDeclaration → Option ArtifactDeclaration
  new_declaration d = do
    forbid (d.path == "" || not (p.is_absolute d.path))
    forbid (not (p.is_normalized d.path))
    forbid (is_empty_name d.name)
    forbid (is_named d.name && d.delete_on_success)
    some d

  -- What the inner loop asks of a previous declaration that is not the same.
  unfoldable pub is_conflict : ArtifactDeclaration → ArtifactDeclaration → Bool
  is_conflict previous d =
      d.path == previous.path
      || same_name d.name previous.name
      || p.is_relative_to d.path previous.path
      || p.is_relative_to previous.path d.path

  -- The inner loop: whether the declaration is new; `none` is an exception.
  unfoldable pub is_new : List ArtifactDeclaration → ArtifactDeclaration → Option Bool
  is_new [] d = some true
  is_new (previous ∷ more) d =
      let rest = is_new more d in
      if same_declaration previous d
      then some false
      else if is_conflict previous d
      then none
      else rest

  -- One round of the outer loop.
  unfoldable pub accept :
      List ArtifactDeclaration → ArtifactDeclaration → Option (List ArtifactDeclaration)
  accept accepted d = do
    fresh ← is_new accepted d
    some (if fresh then accepted ++ d ∷ [] else accepted)

  unfoldable pub accept_all :
      List ArtifactDeclaration → List ArtifactDeclaration → Option (List ArtifactDeclaration)
  accept_all accepted [] = some accepted
  accept_all accepted (d ∷ ds) = accept accepted d >>= λ more. accept_all more ds

  unfoldable pub validate_artifact_declarations :
      List ArtifactDeclaration → Option (List ArtifactDeclaration)
  validate_artifact_declarations declarations = accept_all [] declarations

  -- The loop of `append_artifact_declaration`; the last argument is what is left of it.
  unfoldable pub append_after :
      List ArtifactDeclaration
      → ArtifactDeclaration
      → List ArtifactDeclaration
      → Option (List ArtifactDeclaration)
  append_after previous d [] = some (previous ++ d ∷ [])
  append_after previous d (old ∷ more) =
      let rest = append_after previous d more in
      if same_declaration old d
      then some previous
      else validate_artifact_declarations (old ∷ d ∷ []) >>= λ _. rest

  unfoldable pub append_artifact_declaration :
      List ArtifactDeclaration → ArtifactDeclaration → Option (List ArtifactDeclaration)
  append_artifact_declaration previous d = append_after previous d previous
