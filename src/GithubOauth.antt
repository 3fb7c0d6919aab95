-- ===== src/GithubOauth.antt =====
-- src/babeltower/github_oauth.py. The HTTP client and `urlencode` are parameters.
use babeltower.Prelude.{
  ℕ, String, ◌<>◌, Option, none, some, Bool, List, [], ◌∷◌, lookup, if◌then◌else◌,
}
use babeltower.World.{Object, Value}
use babeltower.Exec.{Result, ok, err, http_status_error, key_error}

-- A response: whether `raise_for_status` lets it pass, and what `json` reads out of it or raises.
pub record HttpReply : Type 0 where
  pub is_success : Bool
  pub json : Result Object

-- `httpx`: a request to an URL with headers and, for `post`, form data; an error is one of the
-- network. `urlencode` is of urllib; `int_of` is `int` at a JSON value that is no natural number.
pub record HttpClient : Type 0 where
  pub post : String → List (String × String) → List (String × String) → Result HttpReply
  pub get : String → List (String × String) → Result HttpReply
  pub urlencode : List (String × String) → String
  pub int_of : Value → Result ℕ

pub record Settings : Type 0 where
  pub github_oauth_client_id : String
  pub github_oauth_client_secret : String
  pub server_base_url : String

-- `response.raise_for_status()` and `response.json()`
abbrev pub checked : Result HttpReply → Result Object
checked (err e) = err e
checked (ok r) = if r.is_success then r.json else err http_status_error

-- `int(response.json()["id"])`
abbrev pub id_of : (Value → Result ℕ) → Option Value → Result ℕ
id_of int_of none = err key_error
id_of int_of (some (Value.number n)) = ok n
id_of int_of (some v) = int_of v

abbrev pub read_id : (Value → Result ℕ) → Result Object → Result ℕ
read_id int_of (err e) = err e
read_id int_of (ok o) = id_of int_of (lookup "id" o)

module _ (client : HttpClient) (settings : Settings) where
  open client use {post, get, urlencode, int_of}
  open settings use {github_oauth_client_id, github_oauth_client_secret, server_base_url}

  unfoldable pub build_oauth_url : String → String
  build_oauth_url state =
      "https://github.com/login/oauth/authorize?"
      <> urlencode (
          ("client_id", github_oauth_client_id)
          ∷ ("redirect_uri", server_base_url <> "/v1/register/oauth/callback")
          ∷ ("scope", "read:user")
          ∷ ("state", state)
          ∷ [])

  unfoldable pub exchange_code : String → Result Object
  exchange_code code = checked (
      post "https://github.com/login/oauth/access_token" (("Accept", "application/json") ∷ []) (
        ("client_id", github_oauth_client_id)
        ∷ ("client_secret", github_oauth_client_secret)
        ∷ ("code", code)
        ∷ []))

  unfoldable pub get_user_id : String → Result ℕ
  unfolding lookup
  get_user_id access_token = read_id int_of (
      checked (
        get "https://api.github.com/user" (
          ("Accept", "application/vnd.github+json")
          ∷ ("Authorization", "Bearer " <> access_token)
          ∷ [])))
