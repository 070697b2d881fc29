-- ===== src/EventLog/Catalog.antt =====
-- The lookups of src/trade_alerts/fleet_event_log.py in the error catalog.
use Prim.Native.String
use trade_alerts.Base.{
  ◌≡◌, ◌≢◌, sym, ◌∙◌, ◌⊎◌, inl, inr, true, not, Option, none, some, String, ◌==◌, if◌then◌else◌,
  arith,
}
use trade_alerts.Result.{Result, ok, raised, ◌>>=◌, ◌>>◌, raise_if, bind-eq-ok, ok-injective}
use trade_alerts.Json.{Json, null, str, arr, obj, Items, nil, item, Fields, get, is_text}
use trade_alerts.EventLog.{
  unknown_tier, LogError, unknown_project, no_entry, no_tier, risk_tiers, is_one_of,
  require_bare_code, require_risk_tier,
}

abbrev prefix_of : Json → Option String
prefix_of (str p) =
    if p == "seykota"
    then some "SEY"
    else if p == "momentum"
    then some "MOM"
    else if p == "mycrypto"
    then some "MYC"
    else if p == "btc-competition"
    then some "BTC"
    else if p == "trend-meteor"
    then some "MET"
    else if p == "fleet"
    then some "FLEET"
    else none
prefix_of _ = none

abbrev joined : String → Json → Result LogError String
joined prefix (str c) = ok (String.◌++◌ prefix (String.◌++◌ "." c))
joined prefix _ = raised no_entry

abbrev with_prefix : Option String → Json → Result LogError String
with_prefix none code = raised unknown_project
with_prefix (some prefix) code = do c ← require_bare_code code; joined prefix c

unfoldable pub catalog_code : Json → Json → Result LogError String
catalog_code project code = with_prefix (prefix_of project) code

unfoldable pub find_entry : String → Items → Result LogError Fields
find_entry wanted nil = raised no_entry
find_entry wanted (item (obj e) rest) =
    if is_text wanted (get "code" e) then ok e else find_entry wanted rest
find_entry wanted (item _ rest) = find_entry wanted rest

-- `catalog.get("entries") or []`; a catalog that load_error_catalog read has a list there
abbrev entries_of : Json → Items
entries_of (arr xs) = xs
entries_of _ = nil

unfoldable pub catalog_entry : Fields → Json → Json → Result LogError Fields
catalog_entry catalog project code = do
  wanted ← catalog_code project code
  find_entry wanted (entries_of (get "entries" catalog))

abbrev some_tier : Json → Result LogError Json
some_tier null = raised no_tier
some_tier t = ok t

unfoldable pub risk_tier_for : Fields → Json → Json → Result LogError Json
risk_tier_for catalog project code = do
  entry ← catalog_entry catalog project code
  tier ← require_risk_tier (get "risk_tier" entry)
  some_tier tier

find_entry-code :
    (wanted : String) (xs : Items) (e : Fields)
    → find_entry wanted xs ≡ ok e
    → is_text wanted (get "code" e) ≡ true
unfolding find_entry
find_entry-code wanted nil e h = cc
find_entry-code wanted (item (obj x) rest) e h = ground (arith, find_entry-code wanted rest e)
find_entry-code wanted (item _ rest) e h = find_entry-code wanted rest e h

some_tier-eq-ok : (v t : Json) → some_tier v ≡ ok t → v ≡ t
some_tier-eq-ok null t h = cc
some_tier-eq-ok _ t h = ground arith

one_of_tier :
    (v t : Json)
    → (do raise_if (not (is_one_of risk_tiers v)) unknown_tier; ok v) ≡ ok t
    → (v ≡ t) × (is_one_of risk_tiers t ≡ true)
one_of_tier v t h = ground arith

pub require_risk_tier-eq-ok :
    (v t : Json)
    → require_risk_tier v ≡ ok t
    → (v ≡ t) × ((t ≡ null) ⊎ (is_one_of risk_tiers t ≡ true))
unfolding require_risk_tier
require_risk_tier-eq-ok null t h = (ok-injective h, inl (sym (ok-injective h)))
require_risk_tier-eq-ok v t h = let (same, valid) = one_of_tier v t h in (same, inr valid)

not_null : (v t : Json) → some_tier v ≡ ok t → t ≢ null
not_null null t h = cc
not_null _ t h = ground arith

tier_known :
    (v t : Json)
    → some_tier v ≡ ok t
    → (v ≡ null) ⊎ (is_one_of risk_tiers v ≡ true)
    → is_one_of risk_tiers t ≡ true
tier_known v t h (inl empty) = absurd (not_null v t h (sym (some_tier-eq-ok v t h) ∙ empty))
tier_known v t h (inr known) = rw (sym (some_tier-eq-ok v t h)) known

-- The tier that a lookup gives is one of R0 to R3, and stands in an entry of the catalog that has the
-- code which the project's prefix and the bare name make.
pub risk_tier_for-entry :
    (catalog : Fields) (project code : Json) {t : Json}
    → risk_tier_for catalog project code ≡ ok t
    → (is_one_of risk_tiers t ≡ true)
      × (wanted : String) × (entry : Fields) × (catalog_code project code ≡ ok wanted)
      × (is_text wanted (get "code" entry) ≡ true)
      × (get "risk_tier" entry ≡ t)
unfolding risk_tier_for catalog_entry
risk_tier_for-entry catalog project code {t} h =
    let (entry, found, h1) = bind-eq-ok (catalog_entry catalog project code) _ h in
    let (tier, known, h2) = bind-eq-ok (require_risk_tier (get "risk_tier" entry)) _ h1 in
    let (wanted, named, h3) = bind-eq-ok (catalog_code project code) _ found in
    let same = some_tier-eq-ok tier t h2 in
    let (kept, valid) = require_risk_tier-eq-ok (get "risk_tier" entry) tier known in
    (
      tier_known tier t h2 valid,
      wanted,
      entry,
      named,
      find_entry-code wanted (entries_of (get "entries" catalog)) entry h3,
      kept ∙ same,
    )
