-- ===== src/Receiver/Hops.antt =====
-- Which locations the transport of src/trade_alerts/google_ledger_client.py fetches.
use mathlib.Core.Path.{subst}
use trade_alerts.Base.{
  ℕ, zero, suc, ◌≤◌, ◌≡◌, refl, ◌⊎◌, inl, inr, Bool, true, false, ◌||◌, not, Option, some, String,
  ◌==◌, All, length, arith, eq_iff, Bool-cases,
}
use trade_alerts.Result.{Result, ok, raised, raise_if-eq-ok, bind-eq-ok, ok-injective}
use trade_alerts.Receiver.Redirect.{
  ClientError, transport_error, Url, Response, Fetch, responded, fetch_failed, is_redirect, url_of,
  is_allowed_host, permitted_redirect, Fetched, visit, stop, hop, follow, post_json,
}

second_holds : (a b c d : Bool) → (not a || not b || c || d) ≡ false → b ≡ true
second_holds a b c d h = ground arith

all_hold : (a b c : Bool) → (not a || not b || not c) ≡ false → (a ≡ true) × (b ≡ true) × (c ≡ true)
all_hold a b c h = ground arith

module _ (parse : String → Option Url) (lower : String → String) where
  -- The location is one of HTTPS on the endpoint's host, or on the content host of Apps Script for an
  -- endpoint there, and it carries no credentials.
  pub record IsPermitted (endpoint location : String) : Type 0 where
    pub origin : Url
    pub target : Url
    pub from : parse endpoint ≡ some origin
    pub to : parse location ≡ some target
    pub secure : target.scheme ≡ "https"
    pub host :
        (lower target.hostname ≡ lower origin.hostname)
        ⊎ ((lower origin.hostname ≡ "script.google.com")
            × (lower target.hostname ≡ "script.googleusercontent.com"))
    pub anonymous : (target.username ≡ "") × (target.password ≡ "")

  parsed : (s : String) (u : Url) → url_of parse lower s ≡ ok u → parse s ≡ some u
  parsed s u h = ground arith

  host-cases :
      (o t : Url)
      → is_allowed_host parse lower o t ≡ true
      → (lower t.hostname ≡ lower o.hostname)
        ⊎ ((lower o.hostname ≡ "script.google.com")
            × (lower t.hostname ≡ "script.googleusercontent.com"))
  host-cases o t h = elim (Bool-cases (lower t.hostname == lower o.hostname)) [
    | inl same ↦ inl ((eq_iff (lower t.hostname) (lower o.hostname)).0 same)
    | inr other ↦ inr (
      (eq_iff (lower o.hostname) "script.google.com").0 (ground arith),
      (eq_iff (lower t.hostname) "script.googleusercontent.com").0 (ground arith),
    )
  ]

  permitted_redirect-eq-ok :
      (endpoint location : String) {url : String}
      → permitted_redirect parse lower endpoint location ≡ ok url
      → IsPermitted endpoint url
  unfolding permitted_redirect
  permitted_redirect-eq-ok endpoint location {url} h =
      let (o, from, h1) = bind-eq-ok (url_of parse lower endpoint) _ h in
      let (t, to, h2) = bind-eq-ok (url_of parse lower location) _ h1 in
      let (secure, h3) = raise_if-eq-ok _ _ _ h2 in
      let (trusted, h4) = raise_if-eq-ok _ _ _ h3 in
      let (host, no_user, no_password) = all_hold _ _ _ trusted in
      subst (IsPermitted endpoint) (ok-injective h4) (record {
        origin = o;
        target = t;
        from = parsed endpoint o from;
        to = parsed location t to;
        secure = (eq_iff t.scheme "https").0 (second_holds _ _ _ _ secure);
        host = host-cases o t host;
        anonymous = ((eq_iff t.username "").0 no_user, (eq_iff t.password "").0 no_password);
      })

  abbrev IsSafe : String → ℕ → Fetched → Type 0
  IsSafe endpoint n f = All (IsPermitted endpoint) f.visited × (length f.visited ≤ n)

  hop-IsSafe :
      (endpoint location : String) (left : ℕ) (get : String → Fetch) (next : Response → Fetched)
      (r : Result ClientError String)
      → permitted_redirect parse lower endpoint location ≡ r
      → ((r' : Response) → IsSafe endpoint left (next r'))
      → IsSafe endpoint (suc left) (hop parse lower get next r)
  hop-IsSafe endpoint location left get next (raised e) h safe = (tt, omega arith)
  hop-IsSafe endpoint location left get next (ok url) h safe = answered (get url)
    where
      answered :
          (a : Fetch)
          → IsSafe endpoint (suc left) (
              visit url (elim a as (λ _. Fetched) [
                | responded r ↦ next r
                | fetch_failed ↦ stop (raised transport_error)
              ]))
      answered (responded r) =
          ((permitted_redirect-eq-ok endpoint location h, (safe r).0), omega (arith, (safe r).1))
      answered fetch_failed = ((permitted_redirect-eq-ok endpoint location h, tt), omega arith)

  follow-IsSafe :
      (endpoint : String) (get : ℕ → String → Fetch) (left : ℕ) (r : Response)
      → IsSafe endpoint left (follow parse lower endpoint get left r)
  unfolding follow
  follow-IsSafe endpoint get zero r = elim (Bool-cases (is_redirect r)) [
    | inl more ↦ rw more (tt, omega arith)
    | inr last ↦ rw last (tt, omega arith)
  ]
  follow-IsSafe endpoint get (suc left) r = elim (Bool-cases (is_redirect r)) [
    | inl more ↦ rw more (
        hop-IsSafe endpoint r.location left (get left)
          (λ r'. follow parse lower endpoint get left r') _ refl
          (λ r'. follow-IsSafe endpoint get left r'))
    | inr last ↦ rw last (tt, omega arith)
  ]

  -- Whatever the servers answer, a post fetches at most three further locations, each of them by HTTPS
  -- on the endpoint's host, or on the content host of Apps Script for an endpoint of Apps Script, and
  -- without credentials in it.
  pub post_json-IsPermitted :
      (endpoint : String) (post : Fetch) (get : ℕ → String → Fetch)
      → All (IsPermitted endpoint) (post_json parse lower endpoint post get).visited
        × (length (post_json parse lower endpoint post get).visited ≤ 3)
  unfolding post_json
  post_json-IsPermitted endpoint fetch_failed get = (tt, omega arith)
  post_json-IsPermitted endpoint (responded r) get = follow-IsSafe endpoint get 3 r
