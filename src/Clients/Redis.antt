-- ===== src/Clients/Redis.antt =====
-- db/redis/redis.go. The driver and the JSON package are arguments; a connection attempt is given by
-- its number. A client that is not connected is a nil pointer, of which every call panics.
use lotus_tools.Prelude.{
  ℕ, zero, suc, ◌+◌, ◌≤◌, ◌<◌, ◌≡◌, refl, ◌∙◌, ap, sym, ◌⊎◌, inl, inr, String, Option, none, some,
  ltb, false, dec_lt, subst, Bool-cases, Result, ok, err, Result-cases, Run, done, panic, ◌>>=◌,
  if◌then◌else◌, arith, ℤ, or_panic,
}

-- The greatest number of failures before the last attempt.
abbrev pub max_retries : ℕ
max_retries = 10

module _ {C : Type 0} (attempt : ℕ → Result C) where
  -- The goroutine of `RedisConnect` from its label connDB on, with `count` failures so far: it
  -- gives the client that is set. `rounds` bounds the jumps back.
  unfoldable pub connect_db : ℕ → ℕ → Run (Option C)
  connect_db zero count = done none
  connect_db (suc rounds) count =
      let again = connect_db rounds (count + 1) in
      let tried : Run (Option C) = elim (attempt count) [ ok c ↦ done (some c) | err _ ↦ again ] in
      if ltb max_retries count then panic else tried

  -- One round more than there are attempts, for the last test of the count.
  unfoldable pub redis_connect : Run (Option C)
  redis_connect = connect_db (max_retries + 2) 0

  -- All attempts before the n-th fail.
  abbrev pub AllFail : ℕ → Type 0
  AllFail n = (i : ℕ) → i < n → (e : String) × (attempt i ≡ err e)

  -- How the goroutine ends.
  abbrev pub Connects : Run (Option C) → Type 0
  Connects r =
      ((k : ℕ) × (c : C) × (k ≤ max_retries) × AllFail k × (attempt k ≡ ok c) × (r ≡ done (some c)))
      ⊎ (AllFail (suc max_retries) × (r ≡ panic))

  AllFail-suc : (n : ℕ) (e : String) → AllFail n → attempt n ≡ err e → AllFail (n + 1)
  AllFail-suc n e all f i h = elim (dec_lt i n) [
    | yes p ↦ all i p
    | no p ↦ let same : i ≡ n = omega arith in (e, ap attempt same ∙ f)
  ]

  connect_db_again :
      (rounds count : ℕ) (e : String)
      → ltb max_retries count ≡ false
      → attempt count ≡ err e
      → connect_db (suc rounds) count ≡ connect_db rounds (count + 1)
  unfolding connect_db
  connect_db_again rounds count e h f = ground arith

  connect_db-Connects :
      (rounds count : ℕ)
      → max_retries + 2 ≤ rounds + count
      → count ≤ suc max_retries
      → AllFail count
      → Connects (connect_db rounds count)
  unfolding connect_db
  connect_db-Connects zero count h k all = absurd (omega arith)
  connect_db-Connects (suc rounds) count h k all = elim (Bool-cases (ltb max_retries count)) [
    | inl past ↦
        let last : count ≡ suc max_retries = ground arith in
        inr (subst AllFail last all, ground arith)
    | inr early ↦ elim (Result-cases (attempt count)) [
      | inr (c, e) ↦ inl (count, c, ground arith, all, e, ground arith)
      | inl (e, f) ↦ subst Connects (sym (connect_db_again rounds count e early f)) (
          connect_db-Connects rounds (count + 1) (omega arith) (ground arith)
            (AllFail-suc count e all f))
    ]
  ]

  -- `RedisConnect` tries at most eleven times. It sets the client of the first attempt that
  -- succeeds, and where all eleven fail it ends the process by a panic.
  pub redis_connect-Connects : Connects redis_connect
  unfolding redis_connect
  redis_connect-Connects =
      connect_db-Connects (max_retries + 2) 0 (omega arith) (omega arith)
        (λ i h. absurd (omega arith))

-- What the client uses: the server with its keys, and the JSON of values. `S` is the server's state.
pub record Redis (C S V : Type 0) : Type 0 where
  pub set : C → String → String → ℤ → S → Result S
  pub get : C → String → S → Result String
  pub marshal : V → Result String
  pub unmarshal : String → Result V

module _ {C S V : Type 0} (redis : Redis C S V) (client : Option C) where
  abbrev pub set_text : String → ℤ → Result String → S → Run (Result S)
  set_text key expiration (err e) s = done (err e)
  set_text key expiration (ok text) s = do
    c ← or_panic client
    done (redis.set c key text expiration s)

  -- `SetObj`
  unfoldable pub set_obj : String → V → ℤ → S → Run (Result S)
  set_obj key obj expiration s = set_text key expiration (redis.marshal obj) s

  abbrev pub read_text : Result String → Result V
  read_text (err e) = err e
  read_text (ok text) = redis.unmarshal text

  -- `GetObj`, with the value that it fills in.
  unfoldable pub get_obj : String → S → Run (Result V)
  get_obj key s = do c ← or_panic client; done (read_text (redis.get c key s))

  -- An object that is set is got back, where the server gives what was set and JSON reads back what
  -- it wrote.
  pub get_obj-set_obj :
      (c : C) (key text : String) (obj : V) (expiration : ℤ) (s s' : S)
      → client ≡ some c
      → redis.marshal obj ≡ ok text
      → redis.unmarshal text ≡ ok obj
      → redis.set c key text expiration s ≡ ok s'
      → redis.get c key s' ≡ ok text
      → (set_obj key obj expiration s ≡ done (ok s')) × (get_obj key s' ≡ done (ok obj))
  unfolding set_obj get_obj
  get_obj-set_obj c key text obj expiration s s' connected written read set got =
      (rw (connected, written, set) refl, rw (connected, got, read) refl)
