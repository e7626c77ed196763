-- ===== src/Artifacts.antt =====
-- worker/src/artifacts.ts: the evidence that a job leaves under its own directory. The paths are
-- POSIX paths; `path.resolve` of the root depends on the working directory and is a parameter.
pub mod Laws
use price_scout.Base.{
  ℕ, Bool, true, false, not, Option, none, some, List, [], ◌∷◌, ◌++◌, take, length, last,
}
use price_scout.Base.{if◌then◌else◌, ◌==◌}
use price_scout.Base.Text.{Text, codes, truthy, replace_units, starts_with}
use price_scout.Base.Effects.{Result, ok, err, plain, msg}
use price_scout.Contracts.{Artifact, ArtifactKind, ContentType, image_png, text_plain}
use price_scout.Outside.{
  Platform, Outside, Session, screenshot, snapshot, make_directory, write_file,
}
use price_scout.Outside.Act.{St, Act, call, pure, throw, both, ◌>>=◌, ◌>>◌}
use price_scout.Browser.{is_segment_unit}

unfoldable pub safe_id : Text → Text
safe_id execution_id = take 100 (replace_units (λ c. not (is_segment_unit c)) b'_' execution_id)

abbrev pub ends_in_slash : Option ℕ → Bool
ends_in_slash none = false
ends_in_slash (some c) = c == b'/'

-- `path.resolve(root, segment)` and `path.join(root, segment)` for an absolute root without a
-- superfluous slash and a name without slash other than `.` and `..`; an empty one is left out.
unfoldable pub under : Text → Text → Text
under root segment =
    if not (truthy segment)
    then root
    else if ends_in_slash (last root)
    then root ++ segment
    else root ++ (b'/' ∷ segment)

-- `directory.startsWith(`${root}${path.sep}`)`
abbrev pub is_inside : Text → Text → Bool
is_inside root directory = starts_with directory (root ++ b'/' ∷ [])

unfoldable pub artifact : Platform → ArtifactKind → Text → ContentType → Text → Artifact
artifact p kind storage_key content_type content = record {
  kind = kind;
  storage_key = storage_key;
  content_type = content_type;
  size_bytes = length content;
  sha256 = p.sha256 content;
}

abbrev pub artifacts_of : Platform → Text → Text → Text → List Artifact
artifacts_of p id image tree =
    artifact p ArtifactKind.screenshot (id ++ codes "/page.png") image_png image
    ∷ artifact p ArtifactKind.snapshot (id ++ codes "/snapshot.txt") text_plain tree
    ∷ []

module _ (p : Platform) {o : Outside} (run : Session) where
  -- What follows the test on the directory.
  unfoldable pub write_evidence : Text → Text → Act o (List Artifact)
  write_evidence directory id = do
    call (make_directory directory)
    image ← call (screenshot run)
    snap ← call (snapshot run)
    let tree = p.utf8 (take 2000000 snap.formatted_tree)
    both (call (write_file (under directory (codes "page.png")) image))
        (call (write_file (under directory (codes "snapshot.txt")) tree))
    pure (artifacts_of p id image tree)

  unfoldable pub capture_evidence : Text → Text → Act o (List Artifact)
  capture_evidence artifact_root execution_id =
      let id = safe_id execution_id in
      let root = p.resolve_path artifact_root in
      let directory = under root id in
      if not (is_inside root directory)
      then throw (plain (msg "Unsafe artifact path"))
      else write_evidence directory id
