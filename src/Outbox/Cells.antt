-- ===== src/Outbox/Cells.antt =====
-- The values of a flat JSON record: null, an integer or a text. On these Python's `==` is equality.
use trade_alerts.Base.{
  ◌≡◌, refl, ◌↔◌, Bool, true, false, ◌&&◌, Option, none, some, List, [], ◌∷◌, String, ◌==◌, eq_iff,
  arith, ap, if◌then◌else◌, all, length, nat_eq,
}
use trade_alerts.Base.Int.{ℤ, int_eq, int_eq_iff}

pub data Cell : Type 0 where
  null : Cell
  int : ℤ → Cell
  str : String → Cell

unfoldable pub cell_eq : Cell → Cell → Bool
cell_eq null null = true
cell_eq (int a) (int b) = int_eq a b
cell_eq (str s) (str t) = s == t
cell_eq _ _ = false

pub cell_eq_iff : (a b : Cell) → (cell_eq a b ≡ true) ↔ (a ≡ b)
unfolding cell_eq
cell_eq_iff null null = ((λ h. refl), (λ h. refl))
cell_eq_iff (int a) (int b) =
    ((λ h. ap int ((int_eq_iff a b).0 h)), (λ h. (int_eq_iff a b).1 (ground arith)))
cell_eq_iff (str s) (str t) =
    ((λ h. ap str ((eq_iff s t).0 h)), (λ h. (eq_iff s t).1 (ground arith)))
cell_eq_iff null (int b) = ((λ h. cc), (λ h. cc))
cell_eq_iff null (str b) = ((λ h. cc), (λ h. cc))
cell_eq_iff (int a) null = ((λ h. cc), (λ h. cc))
cell_eq_iff (int a) (str b) = ((λ h. cc), (λ h. cc))
cell_eq_iff (str a) null = ((λ h. cc), (λ h. cc))
cell_eq_iff (str a) (int b) = ((λ h. cc), (λ h. cc))

pub cell_eq_refl : (a : Cell) → cell_eq a a ≡ true
cell_eq_refl a = (cell_eq_iff a a).1 refl

-- `c == "s"`
abbrev pub is_str : String → Cell → Bool
is_str s c = cell_eq c (str s)

-- A JSON object with flat values, its keys all different.
abbrev pub Obj : Type 0
Obj = List (String × Cell)

unfoldable pub get : String → Obj → Option Cell
get k [] = none
get k ((j, v) ∷ o) = if j == k then some v else get k o

-- o.get(k), which is None for a missing key
unfoldable pub get_or_null : String → Obj → Cell
unfolding get
get_or_null k o = elim (get k o) [ none ↦ null | some v ↦ v ]

abbrev pub holds : Obj → String × Cell → Bool
holds o (k, v) = elim (get k o) [ none ↦ false | some w ↦ cell_eq w v ]

-- a == b for dicts
unfoldable pub obj_eq : Obj → Obj → Bool
unfolding get
obj_eq a b = nat_eq (length a) (length b) && all (holds a) b
