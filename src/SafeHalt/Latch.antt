-- ===== src/SafeHalt/Latch.antt =====
-- The latch of src/trade_alerts/safe_halt_model.py: `build_safe_halt`, `re_assert`, the fingerprint and
-- `active_safe_halt`.
--
-- `digest` stands for `hashlib.sha256(json.dumps(core)).hexdigest()[:12]`.
use trade_alerts.Base.{
  Bool, true, false, ◌&&◌, not, Option, none, some, String, ◌==◌, if◌then◌else◌,
}
use trade_alerts.Result.{Result, ok, raised, ◌>>=◌, ◌>>◌, raise_if}
use trade_alerts.Json.{
  Json, bool, str, obj, Fields, end, field, get, put, truthy, is_canonical_fields, is_filled_text,
  or_else,
}
use trade_alerts.EventLog.{text_has_dot}

pub data HaltError : Type 0 where
  not_canonical code_required code_has_prefix reason_required not_mapping : HaltError
  not_active already_cleared token_mismatch method_required not_dict : HaltError

unfoldable pub require_condition_code : Json → Result HaltError Json
require_condition_code c = do
  raise_if (not (is_filled_text c)) code_required
  raise_if (text_has_dot c) code_has_prefix
  ok c

abbrev dict_of : Json → Result HaltError Fields
dict_of (obj fs) = ok fs
dict_of _ = raised not_dict

-- dict(v or {})
unfoldable pub halt_dict : Json → Result HaltError Fields
halt_dict v = if truthy v then dict_of v else ok end

-- dict(v) if isinstance(v, Mapping) else {}
abbrev pub mapping_or_empty : Json → Fields
mapping_or_empty (obj fs) = fs
mapping_or_empty _ = end

unfoldable pub fingerprint_core : Fields → Fields
fingerprint_core halt = field "code" (get "code" halt) (
    field "reason" (get "reason" halt)
      (field "evidence" (obj (mapping_or_empty (get "evidence" halt))) end))

abbrev pub latch_record : String → Json → Json → Json → Fields → Fields → Fields
latch_record now code reason since evidence details = field "active" (bool true) (
    field "code" code (
      field "reason" reason (
        field "since" (or_else since (str now))
          (field "evidence" (obj evidence) (field "details" (obj details) end)))))

-- The keyword arguments of build_safe_halt.
pub record HaltArgs : Type 0 where
  pub code : Json
  pub reason : Json
  pub evidence : Json
  pub details : Json
  pub since : Json

unfoldable pub build_safe_halt : String → HaltArgs → Result HaltError Fields
build_safe_halt now a = do
  raise_if (not (is_filled_text a.reason)) reason_required
  code ← require_condition_code a.code
  evidence ← halt_dict a.evidence
  details ← halt_dict a.details
  let halt = latch_record now code a.reason a.since evidence details
  raise_if (not (is_canonical_fields (fingerprint_core halt))) not_canonical
  ok halt

abbrev pub is_true : Json → Bool
is_true (bool b) = b
is_true _ = false

module _ (digest : Fields → String) where
  unfoldable pub safe_halt_fingerprint : Fields → Result HaltError String
  safe_halt_fingerprint halt = do
    code ← require_condition_code (get "code" halt)
    raise_if (not (is_canonical_fields (fingerprint_core halt))) not_canonical
    ok (digest (fingerprint_core halt))

  -- The comparison under `try`.
  abbrev same_token : Result HaltError String → Result HaltError String → Bool
  same_token (ok s) (ok t) = s == t
  same_token _ _ = false

  unfoldable pub unchanged : Fields → Fields → Bool
  unchanged previous latch =
      same_token (safe_halt_fingerprint previous) (safe_halt_fingerprint latch)

  unfoldable pub re_assert : Json → Fields → Fields
  re_assert (obj previous) latch =
      if is_true (get "active" previous)
        && (unchanged previous latch && is_filled_text (get "since" previous))
      then put "since" (get "since" previous) latch
      else latch
  re_assert _ latch = latch

abbrev active_latch : Json → Option Fields
active_latch (obj halt) = elim (get "active" halt) [ bool true ↦ some halt | _ ↦ none ]
active_latch _ = none

unfoldable pub active_safe_halt : Json → Option Fields
active_safe_halt (obj state) = active_latch (get "safe_halt" state)
active_safe_halt _ = none

abbrev pub is_latched : Json → Bool
is_latched state = elim (active_safe_halt state) [ none ↦ false | some _ ↦ true ]

unfoldable pub require_active_safe_halt : Json → Result HaltError Fields
require_active_safe_halt state = elim (active_safe_halt state) [
  | none ↦ raised not_active
  | some halt ↦ ok halt
]
