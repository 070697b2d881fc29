-- ===== src/Json/Puts.antt =====
-- What `d[k] = v` does to a lookup in a dict.
use trade_alerts.Base.{
  ◌≡◌, refl, ap, false, some, String, ◌==◌, if◌then◌else◌, arith, eq_refl, eq_iff, Bool-cases, inl,
  inr,
}
use trade_alerts.Json.{Json, Fields, end, field, get, find, or_null, put}

pub get-put : (k : String) (v : Json) (fs : Fields) → get k (put k v fs) ≡ v
unfolding get find put
get-put k v end = rw (eq_refl k) refl
get-put k v (field j w fs) = elim (Bool-cases (j == k)) [
  | inl same ↦ rw (same, eq_refl k) refl
  | inr other ↦ rw (other, other) (get-put k v fs)
]

find-put-other :
    (i k : String) (v : Json) (fs : Fields) → (k == i) ≡ false → find i (put k v fs) ≡ find i fs
unfolding find put
find-put-other i k v end h = rw h refl
find-put-other i k v (field j w fs) h = elim (Bool-cases (j == k)) [
  | inl same ↦ rw same (ground (arith, eq_iff j k, eq_iff j i, eq_iff k i))
  | inr other ↦ rw other (ap (λ x. if j == i then some w else x) (find-put-other i k v fs h))
]

pub get-put-other :
    (i k : String) (v : Json) (fs : Fields) → (k == i) ≡ false → get i (put k v fs) ≡ get i fs
unfolding get
get-put-other i k v fs h = ap or_null (find-put-other i k v fs h)
