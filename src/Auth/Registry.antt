-- ===== src/Auth/Registry.antt =====
-- pkg/auth/auth.go: the clients held in memory. `authMutex` makes each function below one step.
-- The files of the public keys and the PEM parser are parameters; an RSA key is a value of `Key`.

pub mod Entries
pub mod Lookup
use insight_collector.Prelude.{
  String, Bool, true, false, Option, none, some, List, [], ◌∷◌, ◌==◌, if◌then◌else◌, GoMap, empty,
  insert, delete, Result, ok, err, ◌>>=◌, ◌>>◌, require, found_or, not,
}
use insight_collector.Auth.Config.{ClientConfig}

pub data AuthError : Type 0 where
  missing_key_path unreadable_key invalid_key missing_secret_key invalid_auth_type : AuthError
  not_found : AuthError

-- os.ReadFile, where `none` is an error, and jwt.ParseRSAPublicKeyFromPEM.
pub record KeyLoader (Key : Type 0) : Type 0 where
  pub read_file : String → Option String
  pub parse_rsa_public_key : String → Option Key

pub record Registry (Key : Type 0) : Type 0 where
  pub public_keys : GoMap Key
  pub secret_keys : GoMap String
  pub configs : GoMap ClientConfig

abbrev pub no_clients : {Key : Type 0} → Registry Key
no_clients = record { public_keys = empty; secret_keys = empty; configs = empty }

module _ {Key : Type 0} (loader : KeyLoader Key) where
  unfoldable pub load_public_key : String → Result AuthError Key
  load_public_key path = do
    key_bytes ← found_or (loader.read_file path) unreadable_key
    found_or (loader.parse_rsa_public_key key_bytes) invalid_key

  -- The switch on the type, the same in InitAuth and in AddClient.
  unfoldable pub cache_key : ClientConfig → Registry Key → Result AuthError (Registry Key)
  unfolding load_public_key
  cache_key c r =
      if c.auth_type == "rsa"
      then (do
        require (not (c.key_path == "")) missing_key_path
        public_key ← load_public_key c.key_path
        ok (record r { public_keys = insert c.client_id public_key r.public_keys }))
      else if c.auth_type == "hmac"
      then (do
        require (not (c.secret_key == "")) missing_secret_key
        ok (record r { secret_keys = insert c.client_id c.secret_key r.secret_keys }))
      else err invalid_auth_type

  -- AddClient, and one round of the loop of InitAuth for an active client.
  unfoldable pub add_client : ClientConfig → Registry Key → Result AuthError (Registry Key)
  unfolding cache_key
  add_client c r = do
    r' ← cache_key c r
    ok (record r' { configs = insert c.client_id c r'.configs })

  -- The loop of InitAuth: what was loaded before an error stays loaded.
  unfoldable pub load_clients :
      List ClientConfig → Registry Key → Result AuthError (Unit {0}) × Registry Key
  load_clients [] r = (ok tt, r)
  load_clients (c ∷ cs) r =
      if not c.active
      then load_clients cs r
      else elim (add_client c r) [ ok r' ↦ load_clients cs r' | err e ↦ (err e, r) ]

  -- The switch of UpdateClient, which replaces a key only by one that is given.
  unfoldable pub update_key : ClientConfig → Registry Key → Result AuthError (Registry Key)
  unfolding load_public_key
  update_key c r =
      if c.auth_type == "rsa"
      then (if not (c.key_path == "")
          then (do
            public_key ← load_public_key c.key_path
            ok (record r { public_keys = insert c.client_id public_key r.public_keys }))
          else ok r)
      else if c.auth_type == "hmac"
      then (if not (c.secret_key == "")
          then ok (record r { secret_keys = insert c.client_id c.secret_key r.secret_keys })
          else ok r)
      else ok r

  unfoldable pub update_client : ClientConfig → Registry Key → Result AuthError (Registry Key)
  unfolding update_key
  update_client c r = do
    found_or (r.configs c.client_id) not_found
    r' ← update_key c r
    ok (record r' { configs = insert c.client_id c r'.configs })

module _ {Key : Type 0} where
  unfoldable pub remove_client : String → Registry Key → Result AuthError (Registry Key)
  remove_client id r = do
    c ← found_or (r.configs id) not_found
    ok (
        if c.auth_type == "rsa"
        then record r { public_keys = delete id r.public_keys; configs = delete id r.configs }
        else if c.auth_type == "hmac"
        then record r { secret_keys = delete id r.secret_keys; configs = delete id r.configs }
        else record r { configs = delete id r.configs })

  -- The key is nil for an HMAC client.
  unfoldable pub get_client_info : String → Registry Key → Option (Option Key × ClientConfig)
  get_client_info id r = elim (r.configs id) [
    | none ↦ none
    | some c ↦
        if c.auth_type == "rsa"
        then elim (r.public_keys id) [ some key ↦ some (some key, c) | none ↦ none ]
        else if c.auth_type == "hmac"
        then some (none, c)
        else none
  ]

  unfoldable pub get_client_secret_key : String → Registry Key → Option String
  get_client_secret_key id r = r.secret_keys id
