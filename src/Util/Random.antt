-- ===== src/Util/Random.antt =====
-- util/random.go without the identifiers, which a package gives. The random source is an argument:
-- `draw i n` is what the i-th call Intn(n) gives, a number below n. A text is its list of bytes.
use lotus_tools.Prelude.{
  ℕ, zero, suc, ◌+◌, ◌<◌, ℤ, pos, negsuc, ◌≡◌, refl, ap, Run, done, panic, ◌>>=◌, [], ◌∷◌, length,
  some, get_elem?, get_elem?-lt, or_panic, All, arith, codes,
}
use lotus_tools.Util.Text.{Text}

-- The letters and digits.
abbrev pub charset : Text
charset = codes "abcdefghijklmnopqrstuvwxyzABCDEFGHIJKLMNOPQRSTUVWXYZ0123456789"

module _ (draw : ℕ → ℕ → ℕ) where
  -- Intn panics where its bound is not positive.
  abbrev pub intn : ℕ → ℕ → Run ℕ
  intn i zero = panic
  intn i (suc n) = done (draw i (suc n))

  -- The bytes from the i-th on, `left` of them.
  unfoldable pub fill : ℕ → ℕ → Text → Run Text
  fill zero i chars = done []
  fill (suc left) i chars = do
    k ← intn i (length chars)
    c ← or_panic (get_elem? chars k)
    rest ← fill left (i + 1) chars
    done (c ∷ rest)

  -- A slice of a negative length cannot be made.
  unfoldable pub string_with_charset : ℤ → Text → Run Text
  string_with_charset (negsuc n) chars = panic
  string_with_charset (pos n) chars = fill n 0 chars

  unfoldable pub rand_string : ℤ → Run Text
  rand_string n = string_with_charset n charset

  -- A byte of a text.
  abbrev pub IsAmong : Text → ℕ → Type 0
  IsAmong chars c = (k : ℕ) × (get_elem? chars k ≡ some c)

  abbrev pub Fills : ℕ → Text → Run Text → Type 0
  Fills n chars r = (s : Text) × (r ≡ done s) × (length s ≡ n) × All (IsAmong chars) s

  fill-Fills :
      (left i : ℕ) (d : ℕ) (ds : Text)
      → ((j n : ℕ) → 0 < n → draw j n < n)
      → Fills left (d ∷ ds) (fill left i (d ∷ ds))
  unfolding fill
  fill-Fills zero i d ds below = ([], refl, refl, tt)
  fill-Fills (suc left) i d ds below =
      let n = length (d ∷ ds) in
      let (c, e) = get_elem?-lt (d ∷ ds) (draw i n) (below i n (omega arith)) in
      let (s, f, long, all) = fill-Fills left (i + 1) d ds below in
      (c ∷ s, rw (e, f) refl, ap suc long, ((draw i n, e), all))

  -- A random text has the length that is asked for, and its bytes are letters and digits. The
  -- condition: the random source gives numbers below the bound that it is given.
  pub rand_string-Fills :
      (n : ℕ) → ((j m : ℕ) → 0 < m → draw j m < m) → Fills n charset (rand_string (pos n))
  unfolding rand_string string_with_charset
  rand_string-Fills n below =
      fill-Fills n 0 b'a' (codes "bcdefghijklmnopqrstuvwxyzABCDEFGHIJKLMNOPQRSTUVWXYZ0123456789")
        below
