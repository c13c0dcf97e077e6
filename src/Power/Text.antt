-- ===== src/Power/Text.antt =====
-- `toFile` of cli/pow/main.go: an amount as lotus prints it, without its unit. Texts are their
-- code points.
use lotus_tools.Prelude.{ℕ, ℤ, Bool, ◌||◌, List, ◌==◌}
use lotus_tools.Util.Text.{trim_left, trim_right}

-- One of the letters of the cutset "FIL".
abbrev pub is_unit : ℕ → Bool
is_unit c = c == b'F' || c == b'I' || c == b'L'

-- The spaces that an ASCII text can have.
abbrev pub is_space : ℕ → Bool
is_space c = c == b' ' || c == 9 || c == 10 || c == 11 || c == 12 || c == 13

-- `fil` is the printed amount, `types.FIL(amount).String()`.
unfoldable pub to_file : (ℤ → List ℕ) → ℤ → List ℕ
to_file fil amount = trim_left is_space (trim_right is_space (trim_right is_unit (fil amount)))
