-- ===== src/Integrity/Normal.antt =====
-- What `normalise_projection` of src/trade_alerts/ledger_integrity.py returns.
use mathlib.Core.Path.{subst}
use trade_alerts.Base.{◌≡◌, refl, Bool, true, ◌&&◌, String, arith}
use trade_alerts.Result.{ok, bind-eq-ok, ok-injective}
use trade_alerts.Json
use trade_alerts.Json.{Json, Items, Fields, is_canonical, is_canonical_items, is_canonical_fields}
use trade_alerts.Integrity.Canonical.{
  Runtime, projection_value, projection_items, normalise_projection,
}

both : {a b : Bool} → a ≡ true → b ≡ true → (a && b) ≡ true
both p q = ground arith

module _ (py : Runtime) where
  -- Normalising it changes nothing, and `json.dumps` takes it.
  pub record IsNormal (w : Json) : Type 0 where
    pub value_same : projection_value py w ≡ ok w
    pub value_canonical : is_canonical w ≡ true

  record IsNormalItems (ys : Items) : Type 0 where
    pub items_same : projection_items py ys ≡ ok ys
    pub items_canonical : is_canonical_items ys ≡ true

  pub record IsNormalFields (gs : Fields) : Type 0 where
    pub fields_same : normalise_projection py gs ≡ ok gs
    pub fields_canonical : is_canonical_fields gs ≡ true

  str-IsNormal : (s : String) → IsNormal (Json.str s)
  unfolding projection_value is_canonical
  str-IsNormal s = record { value_same = refl; value_canonical = refl }

  arr-IsNormal : (ys : Items) → IsNormalItems ys → IsNormal (Json.arr ys)
  unfolding projection_value is_canonical
  arr-IsNormal ys h = record {
    value_same = rw h.items_same refl;
    value_canonical = h.items_canonical;
  }

  obj-IsNormal : (gs : Fields) → IsNormalFields gs → IsNormal (Json.obj gs)
  unfolding projection_value is_canonical
  obj-IsNormal gs h = record {
    value_same = rw h.fields_same refl;
    value_canonical = h.fields_canonical;
  }

  nil-IsNormal : IsNormalItems Json.nil
  unfolding projection_items is_canonical_items
  nil-IsNormal = record { items_same = refl; items_canonical = refl }

  item-IsNormal :
      (y : Json) (ys : Items) → IsNormal y → IsNormalItems ys → IsNormalItems (Json.item y ys)
  unfolding projection_items is_canonical_items
  item-IsNormal y ys h hs = record {
    items_same = rw (h.value_same, hs.items_same) refl;
    items_canonical = both h.value_canonical hs.items_canonical;
  }

  end-IsNormal : IsNormalFields Json.end
  unfolding normalise_projection is_canonical_fields
  end-IsNormal = record { fields_same = refl; fields_canonical = refl }

  field-IsNormal :
      (k : String) (w : Json) (gs : Fields)
      → IsNormal w
      → IsNormalFields gs
      → IsNormalFields (Json.field k w gs)
  unfolding normalise_projection is_canonical_fields
  field-IsNormal k w gs h hs = record {
    fields_same = rw (h.value_same, hs.fields_same) refl;
    fields_canonical = both h.value_canonical hs.fields_canonical;
  }

  null-IsNormal : IsNormal Json.null
  unfolding projection_value is_canonical
  null-IsNormal = record { value_same = refl; value_canonical = refl }

  bool-IsNormal : (b : Bool) → IsNormal (Json.bool b)
  unfolding projection_value is_canonical
  bool-IsNormal b = record { value_same = refl; value_canonical = refl }

  mutual
    unfolding projection_value projection_items normalise_projection

    value-IsNormal : (v : Json) {w : Json} → projection_value py v ≡ ok w → IsNormal w
    value-IsNormal Json.null h = subst IsNormal (ok-injective h) null-IsNormal
    value-IsNormal Json.non_finite h = cc
    value-IsNormal Json.foreign h = cc
    value-IsNormal (Json.bool b) h = subst IsNormal (ok-injective h) (bool-IsNormal b)
    value-IsNormal (Json.int n) h = subst IsNormal (ok-injective h) (str-IsNormal (py.str_int n))
    value-IsNormal (Json.decimal n s) h = subst IsNormal (ok-injective h) (str-IsNormal _)
    value-IsNormal (Json.str s) h = subst IsNormal (ok-injective h) (str-IsNormal s)
    value-IsNormal (Json.arr xs) h =
        let (ys, came, last) = bind-eq-ok (projection_items py xs) _ h in
        subst IsNormal (ok-injective last) (arr-IsNormal ys (items-IsNormal xs came))
    value-IsNormal (Json.obj fs) h =
        let (gs, came, last) = bind-eq-ok (normalise_projection py fs) _ h in
        subst IsNormal (ok-injective last) (obj-IsNormal gs (fields-IsNormal fs came))

    items-IsNormal : (xs : Items) {ys : Items} → projection_items py xs ≡ ok ys → IsNormalItems ys
    items-IsNormal Json.nil h = subst IsNormalItems (ok-injective h) nil-IsNormal
    items-IsNormal (Json.item x xs) h =
        let (y, came, h1) = bind-eq-ok (projection_value py x) _ h in
        let (ys, came1, last) = bind-eq-ok (projection_items py xs) _ h1 in
        subst IsNormalItems (ok-injective last)
          (item-IsNormal y ys (value-IsNormal x came) (items-IsNormal xs came1))

    fields-IsNormal :
        (fs : Fields) {gs : Fields} → normalise_projection py fs ≡ ok gs → IsNormalFields gs
    fields-IsNormal Json.end h = subst IsNormalFields (ok-injective h) end-IsNormal
    fields-IsNormal (Json.field k v fs) h =
        let (w, came, h1) = bind-eq-ok (projection_value py v) _ h in
        let (gs, came1, last) = bind-eq-ok (normalise_projection py fs) _ h1 in
        subst IsNormalFields (ok-injective last)
          (field-IsNormal k w gs (value-IsNormal v came) (fields-IsNormal fs came1))

  -- A projection that normalises does so once: the result normalises to itself, and it is canonical, so
  -- signing or digesting it cannot be refused.
  pub normalise_projection-IsNormal :
      (fs gs : Fields) → normalise_projection py fs ≡ ok gs → IsNormalFields gs
  normalise_projection-IsNormal fs gs h = fields-IsNormal fs h
