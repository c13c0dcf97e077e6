-- ===== src/Util/Versions.antt =====
-- util/versionHelper.go. The package semver is an argument: whether a text is a version, its canonical
-- text without the build, and the build. A text is the list of its code points.
use lotus_tools.Prelude.{
  ℕ, zero, suc, ◌<◌, ℤ, pos, Bool, true, false, ◌≡◌, refl, ap, ◌∙◌, Option, none, some, List, [],
  ◌∷◌, ◌++◌, Result, ok, err, Run, done, ◌>>=◌, index, slice_one, if◌then◌else◌, atoi, itoa,
  atoi-itoa, add64, add64_pos, bound64, AreNumerals, is_numeral, ◌==◌, get_elem?, itoa-AreNumerals,
  arith, codes,
}
use lotus_tools.Util.Text.{Text, split, join, Lacks, split-join}

pub record Semver : Type 0 where
  pub is_valid : Text → Bool
  pub canonical : Text → Text
  pub build : Text → Text

-- objs[n] = v, for an index within the slice.
abbrev pub set : List Text → ℕ → Text → List Text
set [] n v = []
set (x ∷ xs) zero v = v ∷ xs
set (x ∷ xs) (suc n) v = x ∷ set xs n v

module _ (semver : Semver) where
  abbrev pub with_component : List Text → ℕ → Text → Option ℤ → Result Text
  with_component objs n suffix none = err "strconv.Atoi"
  with_component objs n suffix (some i) =
      ok (b'v' ∷ join (set objs n (itoa (add64 i (pos 1)))) (b'.' ∷ []) ++ suffix)

  unfoldable pub plus : Text → ℕ → Run (Result Text)
  plus v n = do
    let suffix = semver.build v
    obj ← slice_one (semver.canonical v)
    let objs = split obj (b'.' ∷ [])
    part ← index objs (pos n)
    done (with_component objs n suffix (atoi part))

  -- `NewSemVersion`
  unfoldable pub new_sem_version : Text
  new_sem_version = semver.canonical (codes "v1.0.0")

  -- `MajorPlus`, `MinorPlus` and `PatchPlus` are this for the components 0, 1 and 2.
  abbrev pub version_plus : ℕ → Text → Run (Result Text)
  version_plus n v = if semver.is_valid v then plus v n else done (ok new_sem_version)

  unfoldable pub major_plus : Text → Run (Result Text)
  unfolding plus new_sem_version
  major_plus v = version_plus 0 v

  unfoldable pub minor_plus : Text → Run (Result Text)
  unfolding plus new_sem_version
  minor_plus v = version_plus 1 v

  unfoldable pub patch_plus : Text → Run (Result Text)
  unfolding plus new_sem_version
  patch_plus v = version_plus 2 v

-- The text x.y.z
abbrev pub dotted : ℕ → ℕ → ℕ → Text
dotted x y z = join (itoa (pos x) ∷ itoa (pos y) ∷ itoa (pos z) ∷ []) (b'.' ∷ [])

numeral_not_dot : (c : ℕ) → is_numeral c ≡ true → (b'.' == c) ≡ false
numeral_not_dot c h = ground arith

AreNumerals-Lacks : (t : Text) → AreNumerals t → Lacks b'.' t
AreNumerals-Lacks [] h = tt
AreNumerals-Lacks (c ∷ t) (h, hs) = (numeral_not_dot c h, AreNumerals-Lacks t hs)

split-dotted :
    (x y z : ℕ) → split (dotted x y z) (b'.' ∷ []) ≡ itoa (pos x) ∷ itoa (pos y) ∷ itoa (pos z) ∷ []
split-dotted x y z =
    let lacks = λ (n : ℕ). AreNumerals-Lacks (itoa (pos n)) (itoa-AreNumerals (pos n)) in
    split-join b'.' [] (itoa (pos x)) (itoa (pos y) ∷ itoa (pos z) ∷ [])
      (lacks x, (lacks y, (lacks z, tt)))

atoi-next :
    (n : ℕ)
    → suc n < bound64
    → (atoi (itoa (pos n)) ≡ some (pos n)) × (add64 (pos n) (pos 1) ≡ pos (suc n))
atoi-next n h =
    (atoi-itoa (pos n) (ground arith), add64_pos n 1 (omega arith) ∙ ap pos (omega arith))

module _ (semver : Semver) where
  plus_lem :
      (v text : Text) (objs : List Text) (n : ℕ) (part : Text) (i : ℕ)
      → semver.canonical v ≡ b'v' ∷ text
      → split text (b'.' ∷ []) ≡ objs
      → get_elem? objs n ≡ some part
      → part ≡ itoa (pos i)
      → suc i < bound64
      → plus semver v n
        ≡ done (ok (b'v' ∷ join (set objs n (itoa (pos (suc i)))) (b'.' ∷ []) ++ semver.build v))
  unfolding plus
  plus_lem v text objs n part i canonical parts at e h =
      let (a, b) = atoi-next i h in rw (canonical, plus) (rw (parts, at, e, a, b) refl)

  -- What a version becomes, of which the components are numbers.
  abbrev pub Becomes : Text → ℕ → ℕ → ℕ → Run (Result Text) → Type 0
  Becomes v x y z r = r ≡ done (ok (b'v' ∷ dotted x y z ++ semver.build v))

  -- For a version v whose canonical text is "v" and three numbers with dots between them, MajorPlus,
  -- MinorPlus and PatchPlus each add 1 to one number, leave the other two as they are, the lower
  -- ones included, and keep the build. The condition: the numbers are below the greatest int64.
  pub plus_component :
      (v : Text) (x y z : ℕ)
      → semver.is_valid v ≡ true
      → semver.canonical v ≡ b'v' ∷ dotted x y z
      → suc x < bound64
      → suc y < bound64
      → suc z < bound64
      → Becomes v (suc x) y z (major_plus semver v)
        × Becomes v x (suc y) z (minor_plus semver v)
        × Becomes v x y (suc z) (patch_plus semver v)
  unfolding major_plus minor_plus patch_plus
  plus_component v x y z valid canonical hx hy hz =
      let parts = split-dotted x y z in
      let text = dotted x y z in
      let objs = itoa (pos x) ∷ itoa (pos y) ∷ itoa (pos z) ∷ [] in
      (
        rw valid (plus_lem v text objs 0 (itoa (pos x)) x canonical parts refl refl hx),
        rw valid (plus_lem v text objs 1 (itoa (pos y)) y canonical parts refl refl hy),
        rw valid (plus_lem v text objs 2 (itoa (pos z)) z canonical parts refl refl hz),
      )
