-- ===== src/Artifacts/Laws.antt =====
-- Where the evidence of a job goes.
use price_scout.Base.{
  ℕ, suc, zero, ◌≤◌, Bool, true, false, not, ◌≡◌, ◌≢◌, refl, ◌⊎◌, inl, inr, arith, Bool-cases, ◌==◌,
  ap, ◌∙◌,
}
use price_scout.Base.{[], ◌∷◌, ◌++◌, sym, All, length, last, take, length-take, if◌then◌else◌}
use price_scout.Base.Text.{Text, codes, truthy, starts_with, replace_units}
use mathlib.Core.Path.{subst}
use price_scout.Base.Effects.{plain, msg}
use price_scout.Outside.{
  Platform, Outside, Session, Call, screenshot, snapshot, make_directory, write_file,
}
use price_scout.Outside.Act.{St, call, throw}
use price_scout.Outside.Makes.{Grows, Makes, makes_rules, Makes-call, Makes-throw, both-Makes}
use price_scout.Browser.{is_segment_unit}
use price_scout.Artifacts.{
  safe_id, under, ends_in_slash, is_inside, write_evidence, capture_evidence,
}

abbrev pub IsNamePart : Text → Type 0
IsNamePart = All (λ c. is_segment_unit c ≡ true)

kept : (c : ℕ) → is_segment_unit (if not (is_segment_unit c) then b'_' else c) ≡ true
kept c = elim (Bool-cases (is_segment_unit c)) [ inl e ↦ ground arith | inr e ↦ ground arith ]

replaced : (s : Text) → IsNamePart (replace_units (λ c. not (is_segment_unit c)) b'_' s)
replaced [] = tt
replaced (c ∷ s) = (kept c, replaced s)

take-IsNamePart : (n : ℕ) (s : Text) → IsNamePart s → IsNamePart (take n s)
take-IsNamePart zero s h = tt
take-IsNamePart (suc n) [] h = tt
take-IsNamePart (suc n) (c ∷ s) (q, h) = (q, take-IsNamePart n s h)

-- A name of at most 100 letters, digits, underscores and dashes, which is not empty.
abbrev pub IsName : Text → Type 0
IsName id = IsNamePart id × (length id ≤ 100) × (id ≢ [])

-- The path of a directory right under the root, by a name that neither leaves the root nor has
-- parts, is the root's path, a slash and the name.
abbrev pub folder : Text → Text → Text
folder root id = root ++ (b'/' ∷ id)

-- A directory that is made, and a file that is written, is the job's directory under the root, or
-- one of the two files right in it.
abbrev pub IsConfined : Text → Call → Type 0
IsConfined root (write_file path bytes) =
    (id : Text) × IsName id
    × ((path ≡ folder root id ++ codes "/page.png")
        ⊎ (path ≡ folder root id ++ codes "/snapshot.txt"))
IsConfined root (make_directory path) = (id : Text) × IsName id × (path ≡ folder root id)
IsConfined root _ = Unit

slash_is_no_name_unit : (c : ℕ) → is_segment_unit c ≡ true → (c == b'/') ≡ false
slash_is_no_name_unit c h = ground arith

-- A text is not inside itself, nor is a longer one that goes on with a name.
not_inside_self : (root : Text) → is_inside root root ≡ false
unfolding starts_with
not_inside_self [] = refl
not_inside_self (c ∷ root) = ground (arith, not_inside_self root)

not_inside_name :
    (root id : Text)
    → IsNamePart id
    → id ≢ []
    → starts_with (root ++ id) (root ++ b'/' ∷ []) ≡ false
unfolding starts_with
not_inside_name [] [] h n = absurd (n refl)
not_inside_name [] (c ∷ id) h n = let e = slash_is_no_name_unit c h.0 in ground arith
not_inside_name (d ∷ root) id h n = ground (arith, not_inside_name root id h n)

empty_or_not : (t : Text) → (t ≡ []) ⊎ (t ≢ [])
empty_or_not [] = inl refl
empty_or_not (c ∷ t) = inr (λ e. cc)

truthy_of : (t : Text) → t ≢ [] → truthy t ≡ true
truthy_of [] n = absurd (n refl)
truthy_of (c ∷ t) n = refl

-- A directory that passes the test is the root's path, a slash and the name.
inside-folder :
    (root id : Text)
    → IsNamePart id
    → is_inside root (under root id) ≡ true
    → (id ≢ []) × (under root id ≡ folder root id)
unfolding under
inside-folder root id h inside = elim (empty_or_not id) [
  | inl e ↦
      let same : under root id ≡ root = rw e refl in
      let a : is_inside root root ≡ true = rw same at inside in
      let b = not_inside_self root in absurd cc
  | inr n ↦ (
    n,
    elim (Bool-cases (ends_in_slash (last root))) [
      | inl e ↦
          let same : under root id ≡ root ++ id = rw (truthy_of id n, e) refl in
          let a : is_inside root (root ++ id) ≡ true = rw same at inside in
          let b = not_inside_name root id h n in absurd cc
      | inr e ↦ rw (truthy_of id n, e) refl
    ],
  )
]

last_of_name : (id : Text) → IsNamePart id → ends_in_slash (last id) ≡ false
last_of_name [] h = refl
last_of_name (c ∷ []) h = slash_is_no_name_unit c h.0
last_of_name (c ∷ d ∷ id) h = last_of_name (d ∷ id) h.1

last_of_folder : (root : Text) (c : ℕ) (id : Text) → last (root ++ (c ∷ id)) ≡ last (c ∷ id)
last_of_folder [] c id = refl
last_of_folder (r ∷ []) c id = refl
last_of_folder (r ∷ s ∷ root) c id = last_of_folder (s ∷ root) c id

last_behind : (c : ℕ) (id : Text) → id ≢ [] → last (c ∷ id) ≡ last id
last_behind c [] n = absurd (n refl)
last_behind c (d ∷ id) n = refl

-- A file in such a directory.
under-folder :
    (root id : Text) (c : ℕ) (name : Text)
    → IsName id
    → under (folder root id) (c ∷ name) ≡ folder root id ++ (b'/' ∷ (c ∷ name))
unfolding under
under-folder root id c name (h, short, n) =
    let plain : ends_in_slash (last (folder root id)) ≡ false =
      ap ends_in_slash (last_of_folder root b'/' id ∙ last_behind b'/' id n) ∙ last_of_name id h in
    rw plain refl

module _ (p : Platform) {o : Outside} (run : Session) (root id : Text) (named : IsName id) where
  image-Makes : Makes (IsConfined root) {o = o} (call (screenshot run))
  image-Makes = Makes-call (screenshot run) tt

  tree-Makes : Makes (IsConfined root) {o = o} (call (snapshot run))
  tree-Makes = Makes-call (snapshot run) tt

  folder-Makes : Makes (IsConfined root) {o = o} (call (make_directory (folder root id)))
  folder-Makes = Makes-call (make_directory (folder root id)) (id, named, refl)

  page-Makes :
      (bytes : Text)
      → Makes
          (IsConfined root)
          {o = o}
          (call (write_file (under (folder root id) (codes "page.png")) bytes))
  page-Makes bytes =
      Makes-call (write_file (under (folder root id) (codes "page.png")) bytes)
        (id, named, inl (under-folder root id b'p' (codes "age.png") named))

  snapshot-Makes :
      (bytes : Text)
      → Makes
          (IsConfined root)
          {o = o}
          (call (write_file (under (folder root id) (codes "snapshot.txt")) bytes))
  snapshot-Makes bytes =
      Makes-call (write_file (under (folder root id) (codes "snapshot.txt")) bytes)
        (id, named, inr (under-folder root id b's' (codes "napshot.txt") named))

  write-Makes : Makes (IsConfined root) {o = o} (write_evidence p run (folder root id) id)
  unfolding write_evidence
  write-Makes =
      search
        (makes_rules, folder-Makes, image-Makes, tree-Makes, page-Makes, snapshot-Makes, both-Makes)
        depth 20

module _ (p : Platform) {o : Outside} (run : Session) (root id : Text) where
  guarded-Makes :
      IsNamePart id
      → length id ≤ 100
      → (b : Bool) → is_inside root (under root id) ≡ b
      → Makes (IsConfined root) {o = o} (
          if not b
          then throw (plain (msg "Unsafe artifact path"))
          else write_evidence p run (under root id) id)
  guarded-Makes h short true e =
      let (n, same) = inside-folder root id h e in
      subst (λ d. Makes (IsConfined root) {o = o} (write_evidence p run d id)) (sym same)
        (write-Makes p run root id (h, short, n))
  guarded-Makes h short false e = Makes-throw _

-- Evidence is captured by making no directory but one right under the artifact root, whose name has
-- at most 100 letters, digits, underscores and dashes, and by writing no files but `page.png` and
-- `snapshot.txt` right in such a directory.
pub capture_evidence-IsConfined :
    (p : Platform) (o : Outside) (run : Session) (artifact_root id : Text) (s : St o)
    → Grows
        (IsConfined (p.resolve_path artifact_root))
        s.calls
        (capture_evidence p run artifact_root id s).1.calls
unfolding capture_evidence safe_id
capture_evidence-IsConfined p o run artifact_root id s =
    let root = p.resolve_path artifact_root in
    (guarded-Makes p run root (safe_id id) (take-IsNamePart 100 _ (replaced id)) (length-take 100 _)
        _ refl).at
      s
