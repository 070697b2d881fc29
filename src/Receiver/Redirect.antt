-- ===== src/Receiver/Redirect.antt =====
-- `_permitted_redirect` and `_post_json` of src/trade_alerts/google_ledger_client.py.
--
-- `requests` and `urlparse` are parameters: a post and a get end with a response or an exception, and
-- a location has its parts or does not parse. `lower` stands for `str.lower`.
use Prim.Native.Char.{code}
use trade_alerts.Base.{
  ℕ, zero, suc, Bool, true, false, ◌&&◌, ◌||◌, not, Option, none, some, List, [], ◌∷◌, String, ◌==◌,
  nat_eq, ltb, leb, if◌then◌else◌,
}
use trade_alerts.Result.{Result, ok, raised, ◌>>=◌, ◌>>◌, raise_if}
use trade_alerts.Json.{Json, Fields}

pub data ClientError : Type 0 where
  redirect_not_allowed http_error unexpected_status invalid_response : ClientError
  transport_error bad_url endpoint_not_configured : ClientError

-- The parts of a URL that the code looks at; a missing user or password is an empty text.
pub record Url : Type 0 where
  pub scheme : String
  pub hostname : String
  pub username : String
  pub password : String

-- `location` is empty without the header, and `body` is none where `json()` raises.
pub record Response : Type 0 where
  pub status : ℕ
  pub location : String
  pub body : Option Json

pub data Fetch : Type 0 where
  responded : Response → Fetch
  fetch_failed : Fetch

unfoldable pub starts_with : String → String → Bool
starts_with String.[] s = true
starts_with (String.◌∷◌ c p) String.[] = false
starts_with (String.◌∷◌ c p) (String.◌∷◌ d s) = nat_eq (code c) (code d) && starts_with p s

abbrev pub is_text_https : Json → Bool
is_text_https (Json.str s) = starts_with "https://" s
is_text_https _ = false

-- An endpoint that is a text.
abbrev pub text_of : Json → String
text_of (Json.str s) = s
text_of _ = ""

abbrev pub is_redirect_status : ℕ → Bool
is_redirect_status n = nat_eq n 301 || nat_eq n 302 || nat_eq n 303

unfoldable pub is_redirect : Response → Bool
is_redirect r = is_redirect_status r.status && not (r.location == "")

abbrev pub json_object : Option Json → Result ClientError Fields
json_object none = raised invalid_response
json_object (some (Json.obj fs)) = ok fs
json_object (some _) = raised invalid_response

-- What the last response comes to; `raise_for_status` raises from 400 to 599.
unfoldable pub settle : Response → Result ClientError Fields
settle r = do
  raise_if (leb 400 r.status && ltb r.status 600) http_error
  raise_if (not (leb 200 r.status && ltb r.status 300)) unexpected_status
  json_object r.body

-- The answer, and the locations that were fetched with GET on the way.
pub record Fetched : Type 0 where
  pub answer : Result ClientError Fields
  pub visited : List String

abbrev pub visit : String → Fetched → Fetched
visit url f = record { answer = f.answer; visited = url ∷ f.visited }

abbrev pub stop : Result ClientError Fields → Fetched
stop r = record { answer = r; visited = [] }

module _ (parse : String → Option Url) (lower : String → String) where
  abbrev pub url_of : String → Result ClientError Url
  url_of s = elim (parse s) [ none ↦ raised bad_url | some u ↦ ok u ]

  -- target.hostname.lower() in allowed_hosts
  abbrev pub is_allowed_host : Url → Url → Bool
  is_allowed_host origin target =
      lower target.hostname == lower origin.hostname
      || (lower origin.hostname == "script.google.com"
          && lower target.hostname == "script.googleusercontent.com")

  unfoldable pub permitted_redirect : String → String → Result ClientError String
  permitted_redirect endpoint location = do
    origin ← url_of endpoint
    target ← url_of location
    raise_if
        (not (origin.scheme == "https")
          || not (target.scheme == "https")
          || origin.hostname == ""
          || target.hostname == "")
        redirect_not_allowed
    raise_if
        (not (is_allowed_host origin target)
          || not (target.username == "")
          || not (target.password == ""))
        redirect_not_allowed
    ok location

  abbrev pub max_redirect_hops : ℕ
  max_redirect_hops = 3

  -- One GET of a location that may be permitted; `next` is the loop after it.
  abbrev pub hop : (String → Fetch) → (Response → Fetched) → Result ClientError String → Fetched
  hop get next (raised e) = stop (raised e)
  hop get next (ok url) =
      visit url
        (elim (get url) [ responded r ↦ next r | fetch_failed ↦ stop (raised transport_error) ])

  -- The loop, with the number of hops that are left; get n is the n-th GET from the last.
  unfoldable pub follow : String → (ℕ → String → Fetch) → ℕ → Response → Fetched
  follow endpoint get zero r =
      if is_redirect r then stop (raised redirect_not_allowed) else stop (settle r)
  follow endpoint get (suc left) r =
      let next : Response → Fetched = λ r'. follow endpoint get left r' in
      if is_redirect r
      then hop (get left) next (permitted_redirect endpoint r.location)
      else stop (settle r)

  unfoldable pub post_json : String → Fetch → (ℕ → String → Fetch) → Fetched
  post_json endpoint fetch_failed get = stop (raised transport_error)
  post_json endpoint (responded r) get = follow endpoint get max_redirect_hops r

  unfoldable pub post_receiver_json : Json → Fetch → (ℕ → String → Fetch) → Fetched
  post_receiver_json endpoint post get =
      if is_text_https endpoint
      then post_json (text_of endpoint) post get
      else stop (raised endpoint_not_configured)
