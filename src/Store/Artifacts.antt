-- ===== src/Store/Artifacts.antt =====
-- internal/store/postgres/executions.go, validateArtifactPublication. The documents are decoded:
-- json.Unmarshal cannot fail on them, since the store wrote the one and the API decoded the other.
use Prim.Native.Char.{code}
use jobman_control.Prelude.{
  ℕ, String, Bool, true, false, ◌&&◌, not, Option, none, some, List, [], ◌∷◌, if◌then◌else◌, str_eq,
  ◌==◌, any, all,
}
use jobman_control.Store.Rows.{Outcome, OutputArtifact, ArtifactStoreBinding, PublishedArtifact}

abbrev pub is_success : Option Outcome → Bool
is_success (some Outcome.success) = true
is_success _ = false

-- `outputs[name]`: a later declaration of a name overwrites an earlier one.
unfoldable pub output_named : String → List OutputArtifact → Option OutputArtifact
output_named name [] = none
output_named name (o ∷ os) = elim (output_named name os) [
  | some later ↦ some later
  | none ↦ if str_eq o.name name then some o else none
]

-- `bindings[name]`, 0 on a missing name.
unfoldable pub binding_version : String → List ArtifactStoreBinding → ℕ
binding_version name [] = 0
binding_version name (b ∷ bs) = elim (any (λ (c : ArtifactStoreBinding). str_eq c.name name) bs) [
  | true ↦ binding_version name bs
  | false ↦ if str_eq b.name name then b.version else 0
]

-- strings.TrimPrefix(path, "/")
unfoldable pub trim_slash : String → String
trim_slash String.[] = ""
trim_slash (String.◌∷◌ c s) = if code c == b'/' then s else String.◌∷◌ c s

unfoldable pub matches_destination :
    List ArtifactStoreBinding → PublishedArtifact → OutputArtifact → Bool
unfolding trim_slash binding_version
matches_destination stores artifact output = elim output.destination [
  | none ↦ false
  | some url ↦
      str_eq url.host artifact.store_name
      && str_eq (trim_slash url.path) artifact.object_key
      && binding_version artifact.store_name stores == artifact.store_version
]

-- The first loop, for one published artifact.
unfoldable pub is_declared :
    List OutputArtifact → List ArtifactStoreBinding → PublishedArtifact → Bool
unfolding output_named matches_destination
is_declared outputs stores artifact = elim (output_named artifact.name outputs) [
  | none ↦ false
  | some output ↦ matches_destination stores artifact output
]

unfoldable pub is_published : List PublishedArtifact → String → Bool
is_published artifacts name = any (λ (a : PublishedArtifact). str_eq a.name name) artifacts

-- The second loop, for one output of the map.
unfoldable pub is_fulfilled : Option Outcome → List PublishedArtifact → OutputArtifact → Bool
unfolding is_published
is_fulfilled result artifacts output =
    not (output.required && not (is_published artifacts output.name) && is_success result)

-- The map's entries: the last declaration of each name.
unfoldable pub output_entries : List OutputArtifact → List OutputArtifact
output_entries [] = []
output_entries (o ∷ os) =
    let rest = output_entries os in
    if any (λ (p : OutputArtifact). str_eq p.name o.name) os then rest else o ∷ rest

unfoldable pub validate_artifact_publication :
    List OutputArtifact → List ArtifactStoreBinding → List PublishedArtifact → Option Outcome → Bool
unfolding is_declared is_fulfilled output_entries
validate_artifact_publication outputs stores artifacts result =
    all (is_declared outputs stores) artifacts
    && all (is_fulfilled result artifacts) (output_entries outputs)
