-- ===== src/Json.antt =====
-- Python values as `json` reads and writes them, and the tests that the code makes on them.
pub mod Puts
use Prim.Native.Char.{code}
use trade_alerts.Base.{
  ℕ, Bool, true, false, ◌&&◌, ◌||◌, not, Option, none, some, String, ◌==◌, nat_eq, if◌then◌else◌,
}
use trade_alerts.Base.Int.{ℤ, int_eq, pos}

mutual
  -- `decimal m s` is the finite float m / 10 ^ s; `non_finite` is NaN or an infinity; `foreign` is
  -- an object that `json.dumps` refuses.
  pub data Json : Type 0 where
    null non_finite foreign : Json
    bool : Bool → Json
    int : ℤ → Json
    decimal : ℤ → ℕ → Json
    str : String → Json
    arr : Items → Json
    obj : Fields → Json

  pub data Items : Type 0 where
    nil : Items
    item : Json → Items → Items

  -- a dict with text keys, in order of insertion
  pub data Fields : Type 0 where
    end : Fields
    field : String → Json → Fields → Fields

-- d.get(k), with its absence kept apart
unfoldable pub find : String → Fields → Option Json
find k end = none
find k (field j v fs) = if j == k then some v else find k fs

abbrev pub or_null : Option Json → Json
or_null none = null
or_null (some v) = v

-- d.get(k)
unfoldable pub get : String → Fields → Json
unfolding find
get k fs = or_null (find k fs)

-- d[k] = v
unfoldable pub put : String → Json → Fields → Fields
put k v end = field k v end
put k v (field j w fs) = if j == k then field k v fs else field j w (put k v fs)

-- d.update(extra): the fields of `extra` in turn; a repeated one keeps its place
unfoldable pub update_fields : Fields → Fields → Fields
update_fields fs end = fs
update_fields fs (field k v extra) = update_fields (put k v fs) extra

-- v == "s"
unfoldable pub is_text : String → Json → Bool
is_text s (str t) = t == s
is_text s _ = false

-- bool(v)
unfoldable pub truthy : Json → Bool
truthy null = false
truthy non_finite = true
truthy foreign = true
truthy (bool b) = b
truthy (int n) = not (int_eq n (pos 0))
truthy (decimal n s) = not (int_eq n (pos 0))
truthy (str s) = not (s == "")
truthy (arr nil) = false
truthy (arr (item x xs)) = true
truthy (obj end) = false
truthy (obj (field k v fs)) = true

-- `json.dumps(v, allow_nan=False)` returns
unfoldable mutual
  pub is_canonical : Json → Bool
  is_canonical null = true
  is_canonical non_finite = false
  is_canonical foreign = false
  is_canonical (bool b) = true
  is_canonical (int n) = true
  is_canonical (decimal n s) = true
  is_canonical (str s) = true
  is_canonical (arr xs) = is_canonical_items xs
  is_canonical (obj fs) = is_canonical_fields fs

  pub is_canonical_items : Items → Bool
  is_canonical_items nil = true
  is_canonical_items (item x xs) = is_canonical x && is_canonical_items xs

  pub is_canonical_fields : Fields → Bool
  is_canonical_fields end = true
  is_canonical_fields (field k v fs) = is_canonical v && is_canonical_fields fs

-- "." in s
unfoldable pub has_dot : String → Bool
has_dot String.[] = false
has_dot (String.◌∷◌ c s) = nat_eq (code c) b'.' || has_dot s

-- isinstance(v, str) and v
abbrev pub is_filled_text : Json → Bool
is_filled_text (str s) = not (s == "")
is_filled_text _ = false

-- v if isinstance(v, str) else ""
abbrev pub text_or_empty : Json → Json
text_or_empty (str s) = str s
text_or_empty _ = str ""

-- v or w
abbrev pub or_else : Json → Json → Json
or_else v w = if truthy v then v else w
