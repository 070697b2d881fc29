-- ===== src/Outbox/Groups.antt =====
-- The groups of `requeue_rejected_projection_intents` of src/trade_alerts/projection_outbox.py: one for
-- each immutable projection of the trade, with every intent that was queued for it.
use trade_alerts.Base.{
  ◌≡◌, refl, sym, ◌∙◌, Bool, true, false, ◌&&◌, not, List, [], ◌∷◌, ◌++◌, String, all, select,
  if◌then◌else◌, arith, All, append-nil, append_assoc, Bool-cases, inl, inr,
}
use trade_alerts.Outbox.Cells.{Cell, str, cell_eq, cell_eq_iff}
use trade_alerts.Outbox.Records.{Intent}
use trade_alerts.Outbox.Queue.{same_key}
use trade_alerts.Outbox.Enqueue.{same_key_refl}
use trade_alerts.Outbox.Requeue.{in_group, add_to_group, group_by_key}

cell_eq-euclid : (a b c : Cell) → cell_eq a b ≡ true → cell_eq a c ≡ true → cell_eq b c ≡ true
cell_eq-euclid a b c h k = rw (← (cell_eq_iff a b).0 h) k

cell_eq-sym : (a b : Cell) → cell_eq a b ≡ true → cell_eq b a ≡ true
cell_eq-sym a b h = (cell_eq_iff b a).1 (sym ((cell_eq_iff a b).0 h))

pub same_key-euclid :
    (a b c : Intent) → same_key a b ≡ true → same_key a c ≡ true → same_key b c ≡ true
unfolding same_key
same_key-euclid a b c h k = ground (
  arith,
  cell_eq-euclid a.action b.action c.action,
  cell_eq-euclid a.project_id b.project_id c.project_id,
  cell_eq-euclid a.trade_id b.trade_id c.trade_id,
  cell_eq-euclid a.event_type b.event_type c.event_type,
  cell_eq-euclid a.source_id b.source_id c.source_id,
  cell_eq-euclid a.ledger_event_digest b.ledger_event_digest c.ledger_event_digest,
  cell_eq-euclid a.payload_digest b.payload_digest c.payload_digest,
  cell_eq-euclid a.schema_version b.schema_version c.schema_version,
)

pub same_key-sym : (a b : Intent) → same_key a b ≡ true → same_key b a ≡ true
unfolding same_key
same_key-sym a b h = ground (
  arith,
  cell_eq-sym a.action b.action,
  cell_eq-sym a.project_id b.project_id,
  cell_eq-sym a.trade_id b.trade_id,
  cell_eq-sym a.event_type b.event_type,
  cell_eq-sym a.source_id b.source_id,
  cell_eq-sym a.ledger_event_digest b.ledger_event_digest,
  cell_eq-sym a.payload_digest b.payload_digest,
  cell_eq-sym a.schema_version b.schema_version,
)

pub same_key-trade_id :
    (a b : Intent) (x : Cell)
    → same_key a b ≡ true
    → cell_eq b.trade_id x ≡ true
    → cell_eq a.trade_id x ≡ true
unfolding same_key
same_key-trade_id a b x h k =
    ground (arith, cell_eq-sym a.trade_id b.trade_id, cell_eq-euclid b.trade_id a.trade_id x)

-- The first group of the key of `k`.
abbrev group_of : Intent → List (List Intent) → List Intent
group_of k [] = []
group_of k (g ∷ gs) = if in_group k g then g else group_of k gs

group_of-add_to_group :
    (i k : Intent) (gs : List (List Intent))
    → group_of k (add_to_group i gs)
      ≡ (if same_key i k then group_of k gs ++ i ∷ [] else group_of k gs)
unfolding add_to_group
group_of-add_to_group i k [] = refl
group_of-add_to_group i k ([] ∷ gs) = group_of-add_to_group i k gs
group_of-add_to_group i k ((j ∷ g) ∷ gs) = ground (
  arith,
  group_of-add_to_group i k gs,
  same_key-euclid j i k,
  same_key-sym j i,
  same_key-euclid i j k,
  same_key-euclid k j i,
  same_key-sym i k,
  same_key-sym j k,
  same_key-sym k i,
)

-- The intents of the trade, and of the key of `k`.
abbrev pub is_sibling : String → Intent → Intent → Bool
is_sibling trade_id k i = cell_eq i.trade_id (str trade_id) && same_key i k

group_of-group_by_key :
    (t : String) (k : Intent) (is : List Intent) (gs : List (List Intent))
    → group_of k (group_by_key t is gs) ≡ group_of k gs ++ select (is_sibling t k) is
unfolding group_by_key
group_of-group_by_key t k [] gs = rw append-nil refl
group_of-group_by_key t k (i ∷ is) gs = elim (Bool-cases (cell_eq i.trade_id (str t))) [
  | inl mine ↦
      rw (mine, group_of-group_by_key t k is (add_to_group i gs), group_of-add_to_group i k gs)
        (elim (Bool-cases (same_key i k)) [
          | inl same ↦ rw same (append_assoc (group_of k gs) (i ∷ []) (select (is_sibling t k) is))
          | inr other ↦ rw other refl
        ])
  | inr foreign ↦ rw foreign (group_of-group_by_key t k is gs)
]

-- No two groups have the same key, and none is empty.
abbrev Apart : List Intent → List (List Intent) → Type 0
Apart [] gs = ⊥
Apart (h ∷ _) gs = all (λ g. not (in_group h g)) gs ≡ true

abbrev DistinctKeys : List (List Intent) → Type 0
DistinctKeys [] = Unit
DistinctKeys (g ∷ gs) = Apart g gs × DistinctKeys gs

Apart-add_to_group :
    (i j : Intent) (gs : List (List Intent))
    → same_key j i ≡ false
    → all (λ g. not (in_group j g)) gs ≡ true
    → all (λ g. not (in_group j g)) (add_to_group i gs) ≡ true
unfolding add_to_group
Apart-add_to_group i j [] other h = ground (arith, same_key-sym i j)
Apart-add_to_group i j ([] ∷ gs) other h = Apart-add_to_group i j gs other h
Apart-add_to_group i j ((k ∷ g) ∷ gs) other h = ground (arith, Apart-add_to_group i j gs other)

DistinctKeys-add_to_group :
    (i : Intent) (gs : List (List Intent)) → DistinctKeys gs → DistinctKeys (add_to_group i gs)
unfolding add_to_group
DistinctKeys-add_to_group i [] h = (refl, tt)
DistinctKeys-add_to_group i ([] ∷ gs) h = absurd h.0
DistinctKeys-add_to_group i ((j ∷ g) ∷ gs) h = elim (Bool-cases (same_key j i)) [
  | inl same ↦ rw same h
  | inr other ↦ rw other (Apart-add_to_group i j gs other h.0, DistinctKeys-add_to_group i gs h.1)
]

DistinctKeys-group_by_key :
    (t : String) (is : List Intent) (gs : List (List Intent))
    → DistinctKeys gs
    → DistinctKeys (group_by_key t is gs)
unfolding group_by_key
DistinctKeys-group_by_key t [] gs h = h
DistinctKeys-group_by_key t (i ∷ is) gs h = elim (Bool-cases (cell_eq i.trade_id (str t))) [
  | inl mine ↦
      rw mine
        (DistinctKeys-group_by_key t is (add_to_group i gs) (DistinctKeys-add_to_group i gs h))
  | inr foreign ↦ rw foreign (DistinctKeys-group_by_key t is gs h)
]

-- The group is the one that its key finds.
abbrev IsOwn : List (List Intent) → List Intent → Type 0
IsOwn gs [] = ⊥
IsOwn gs (h ∷ t) = group_of h gs ≡ h ∷ t

IsOwn-cons :
    (h : Intent) (t : List Intent) (gs all_gs : List (List Intent))
    → all (λ g. not (in_group h g)) gs ≡ true
    → All (IsOwn all_gs) gs
    → All (IsOwn ((h ∷ t) ∷ all_gs)) gs
IsOwn-cons h t [] all_gs apart own = tt
IsOwn-cons h t ([] ∷ gs) all_gs apart own = absurd own.0
IsOwn-cons h t ((j ∷ g) ∷ gs) all_gs apart own =
    (ground (arith, same_key-sym h j), IsOwn-cons h t gs all_gs (ground arith) own.1)

IsOwn-DistinctKeys : (gs : List (List Intent)) → DistinctKeys gs → All (IsOwn gs) gs
IsOwn-DistinctKeys [] h = tt
IsOwn-DistinctKeys ([] ∷ gs) h = absurd h.0
IsOwn-DistinctKeys ((j ∷ g) ∷ gs) h =
    (rw (same_key_refl j) refl, IsOwn-cons j g gs gs h.0 (IsOwn-DistinctKeys gs h.1))

-- Every intent of the trade with the key of the group's first, in order of queueing.
abbrev pub IsClass : String → List Intent → List Intent → Type 0
IsClass t is [] = ⊥
IsClass t is (h ∷ g) = h ∷ g ≡ select (is_sibling t h) is

IsClass-IsOwn :
    (t : String) (is : List Intent) (gs : List (List Intent))
    → All (IsOwn (group_by_key t is [])) gs
    → All (IsClass t is) gs
IsClass-IsOwn t is [] own = tt
IsClass-IsOwn t is ([] ∷ gs) own = absurd own.0
IsClass-IsOwn t is ((h ∷ g) ∷ gs) own =
    (sym own.0 ∙ group_of-group_by_key t h is [], IsClass-IsOwn t is gs own.1)

-- Each group holds all the intents of its key.
pub IsClass-group_by_key :
    (t : String) (is : List Intent) → All (IsClass t is) (group_by_key t is [])
IsClass-group_by_key t is =
    IsClass-IsOwn t is (group_by_key t is [])
      (IsOwn-DistinctKeys (group_by_key t is []) (DistinctKeys-group_by_key t is [] tt))
