-- ===== src/Clients/Mongo.antt =====
-- db/mongo/mongo.go. The driver is an argument. `D` is the state of the server, a database is a
-- client with the name of a database.
use Prim.Native.String.{◌++◌}
use lotus_tools.Prelude.{
  ℤ, pos, ◌≡◌, refl, ◌⊎◌, inl, inr, String, Bool, true, false, Option, none, some, List, [], ◌∷◌,
  Result, ok, err, Result-cases, Option-cases, if◌then◌else◌, string_eq, ap, ◌∙◌,
}
use lotus_tools.Synchain.Settings.{Settings}

pub record Credential : Type 0 where
  pub username : String
  pub password : String
  pub password_set : Bool

-- `options.ClientOptions`, as far as it is filled.
pub record ClientOptions : Type 0 where
  pub uri : String
  pub auth : Option Credential

pub record Driver (C : Type 0) : Type 0 where
  pub connect : ClientOptions → Result C
  pub ping : C → Option String
  pub disconnect : C → Option String

pub record MongoDatabase (C : Type 0) : Type 0 where
  pub client : C
  pub name : String

unfoldable pub client_options : Settings → ClientOptions
client_options conf =
    let m = conf.mongodb in
    let auth =
      some (record { username = m.username; password = m.password; password_set = false }) in
    record { uri = "mongodb://" ++ m.server; auth = if m.no_auth then none else auth }

module _ {C : Type 0} (driver : Driver C) where
  abbrev pub pinged : Settings → C → Option String → Result (MongoDatabase C)
  pinged conf c (some e) = err e
  pinged conf c none = ok (record { client = c; name = conf.mongodb.database })

  abbrev pub connected : Settings → Option C → Result C → Option C × Result (MongoDatabase C)
  connected conf local (err e) = (local, err e)
  connected conf local (ok c) = (some c, pinged conf c (driver.ping c))

  -- `Connect`, with the variable localCli.
  unfoldable pub connect : Settings → Option C → Option C × Result (MongoDatabase C)
  unfolding client_options
  connect conf local = connected conf local (driver.connect (client_options conf))

  -- `Disconnect`
  unfoldable pub disconnect : Option C → Option String
  disconnect none = none
  disconnect (some c) = driver.disconnect c

  -- What a connection leaves in localCli and gives: an error of the driver leaves it as it was; a
  -- client that does not answer is kept there beside the error, so that Disconnect closes it.
  abbrev pub Opens : Settings → Option C → Option C × Result (MongoDatabase C) → Type 0
  Opens conf local (local', r) =
      ((e : String) × (driver.connect (client_options conf) ≡ err e)
        × (local' ≡ local)
        × (r ≡ err e))
      ⊎ ((c : C) × (driver.connect (client_options conf) ≡ ok c)
          × (local' ≡ some c)
          × (((e : String) × (driver.ping c ≡ some e) × (r ≡ err e))
              ⊎ ((driver.ping c ≡ none)
                  × (r ≡ ok (record { client = c; name = conf.mongodb.database })))))

  connected-ok :
      (conf : Settings) (local : Option C) (c : C)
      → ((e : String) × (driver.ping c ≡ some e) × ((connected conf local (ok c)).1 ≡ err e))
        ⊎ ((driver.ping c ≡ none)
            × ((connected conf local (ok c)).1
                ≡ ok (record { client = c; name = conf.mongodb.database })))
  connected-ok conf local c = elim (Option-cases (driver.ping c)) [
    | inl silent ↦ inr (silent, rw silent refl)
    | inr (e, f) ↦ inl (e, f, rw f refl)
  ]

  pub connect-Opens : (conf : Settings) (local : Option C) → Opens conf local (connect conf local)
  unfolding connect
  connect-Opens conf local = elim (Result-cases (driver.connect (client_options conf))) [
    | inl (e, f) ↦
        inl (e, f, ap (λ r. (connected conf local r).0) f, ap (λ r. (connected conf local r).1) f)
    | inr (c, f) ↦ inr (
      c,
      f,
      ap (λ r. (connected conf local r).0) f,
      elim (connected-ok conf local c) [
        | inl (e, p, q) ↦ inl (e, p, ap (λ r. (connected conf local r).1) f ∙ q)
        | inr (p, q) ↦ inr (p, ap (λ r. (connected conf local r).1) f ∙ q)
      ],
    )
  ]

  -- Where the driver connects and the server answers, the client is kept and its database given.
  pub connect-answers :
      (conf : Settings) (local : Option C) (c : C)
      → driver.connect (client_options conf) ≡ ok c
      → driver.ping c ≡ none
      → connect conf local ≡ (some c, ok (record { client = c; name = conf.mongodb.database }))
  unfolding connect
  connect-answers conf local c opened answers =
      ap (connected conf local) opened ∙ ap (λ e. (some c, pinged conf c e)) answers

pub record IndexModel : Type 0 where
  pub key : String
  pub direction : ℤ
  pub unique : Bool
  pub name : String

-- `idx`
pub record Idx : Type 0 where
  pub col_name : String
  pub mod_ : IndexModel

abbrev pub config_collection_name : String
config_collection_name = "config"

abbrev pub messages_collection_name : String
messages_collection_name = "messages"

abbrev pub block_collection_name : String
block_collection_name = "blocks"

-- The list of `createIndex`.
abbrev pub todo : List Idx
todo =
    record {
      col_name = config_collection_name;
      mod_ = record { key = "height"; direction = pos 1; unique = false; name = "config" };
    }
    ∷ record {
      col_name = messages_collection_name;
      mod_ = record { key = "msgcid"; direction = pos 1; unique = true; name = "message_cid" };
    }
    ∷ record {
      col_name = messages_collection_name;
      mod_ = record { key = "height"; direction = pos 1; unique = false; name = "message_height" };
    }
    ∷ record {
      col_name = messages_collection_name;
      mod_ = record { key = "from"; direction = pos 1; unique = false; name = "wallet_from" };
    }
    ∷ record {
      col_name = block_collection_name;
      mod_ = record { key = "height"; direction = pos 1; unique = true; name = "block_height" };
    }
    ∷ []

-- The driver's calls on a server: an error of CreateCollection is dropped.
pub record Server (D : Type 0) : Type 0 where
  pub create_collection : String → D → D
  pub create_one : String → IndexModel → D → D × Result String

module _ {D : Type 0} (server : Server D) where
  abbrev pub error_of : Result String → Option String
  error_of (ok _) = none
  error_of (err e) = some e

  -- `initIndex`, with its error.
  unfoldable pub init_index : Idx → D → D × Option String
  init_index info d =
      let made =
        server.create_one info.col_name info.mod_ (server.create_collection info.col_name d) in
      (made.0, error_of made.1)

  unfoldable pub init_all : List Idx → D → D
  init_all [] d = d
  init_all (i ∷ is) d = init_all is (init_index i d).0

  -- `createIndex`: the errors of `initIndex` are dropped.
  unfoldable pub create_index : D → D × Option String
  create_index d = (init_all todo d, none)
