-- ===== src/Prelude/Go.antt =====
-- What the code takes from the Go language: a call that returns a value and an error, a
-- computation that may panic, and the indexing of slices.
use Prim.Native.String.{String}
use mathlib.Core.Path.{◌≡◌, refl, ap}
use mathlib.Core.Logic.{◌⊎◌, inl, inr}
use mathlib.Core.List.{List, [], ◌∷◌}
use mathlib.Core.Option.{Option, none, some}
use lotus_tools.Prelude.Int.{ℤ, pos, negsuc}
use lotus_tools.Prelude.Lists.{get_elem?}

-- `(value, error)`: `err` carries the error's text.
pub data Result {ℓ} (A : Type ℓ) : Type ℓ where
  ok : A → Result A
  err : String → Result A

pub Result-cases {ℓ} :
    {A : Type ℓ} (r : Result A) → ((e : String) × (r ≡ err e)) ⊎ ((a : A) × (r ≡ ok a))
Result-cases (err e) = inl (e, refl)
Result-cases (ok a) = inr (a, refl)

-- `panic` is an unrecovered panic, which ends the process.
pub data Run {ℓ} (A : Type ℓ) : Type ℓ where
  done : A → Run A
  panic : Run A

pub Run-cases {ℓ} : {A : Type ℓ} (r : Run A) → (r ≡ panic) ⊎ ((a : A) × (r ≡ done a))
Run-cases panic = inl refl
Run-cases (done a) = inr (a, refl)

infixl 5 ◌>>=◌ ◌>>◌
abbrev pub ◌>>=◌ {ℓ κ} : {A : Type ℓ} {B : Type κ} → Run A → (A → Run B) → Run B
done a >>= f = f a
panic >>= _ = panic

abbrev pub ◌>>◌ {ℓ} : {B : Type ℓ} → Run (Unit {0}) → Run B → Run B
m >> k = m >>= λ _. k

pub Run->>=-eq-done {ℓ κ} :
    {A : Type ℓ} {B : Type κ} (m : Run A) (f : A → Run B) {b : B}
    → (m >>= f) ≡ done b
    → (a : A) × (m ≡ done a) × (f a ≡ done b)
Run->>=-eq-done (done a) f h = (a, refl, h)
Run->>=-eq-done panic f h = cc

pub >>=_assoc {ℓ κ μ} :
    {A : Type ℓ} {B : Type κ} {C : Type μ} (m : Run A) (f : A → Run B) (g : B → Run C)
    → ((m >>= f) >>= g) ≡ (m >>= λ a. f a >>= g)
>>=_assoc (done a) f g = refl
>>=_assoc panic f g = refl

pub >>=_cong {ℓ κ} :
    {A : Type ℓ} {B : Type κ} (m : Run A) (f g : A → Run B)
    → ((a : A) → f a ≡ g a)
    → (m >>= f) ≡ (m >>= g)
>>=_cong (done a) f g h = h a
>>=_cong panic f g h = refl

module _ {ℓ} {A : Type ℓ} where
  abbrev pub or_panic : Option A → Run A
  or_panic none = panic
  or_panic (some a) = done a

  -- `xs[i]`
  abbrev pub index : List A → ℤ → Run A
  index xs (pos i) = or_panic (get_elem? xs i)
  index _ (negsuc _) = panic

  -- `xs[1:]`
  abbrev pub slice_one : List A → Run (List A)
  slice_one [] = panic
  slice_one (_ ∷ xs) = done xs

module _ {ℓ} {A : Type ℓ} where
  from_done : A → Run A → A
  from_done d (done a) = a
  from_done d panic = d

  pub done-injective : {a b : A} → done a ≡ done b → a ≡ b
  unfolding from_done
  done-injective {a} h = ap (from_done a) h
