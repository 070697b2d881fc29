-- ===== src/Result.antt =====
-- A call that returns or raises.
use mathlib.Core.Path.{subst}
use trade_alerts.Base.{List, [], ◌∷◌, ◌++◌, ap, ◌≡◌, refl, Bool, true, false, if◌then◌else◌}

pub data Result {ℓ κ} (E : Type ℓ) (A : Type κ) : Type (ℓ ⊔ κ) where
  ok : A → Result E A
  raised : E → Result E A

infixl 5 ◌>>=◌ ◌>>◌
abbrev pub ◌>>=◌ {ℓ κ μ} :
    {E : Type ℓ} {A : Type κ} {B : Type μ} → Result E A → (A → Result E B) → Result E B
ok a >>= f = f a
raised e >>= f = raised e

abbrev pub ◌>>◌ {ℓ κ} : {E : Type ℓ} {B : Type κ} → Result E (Unit {0}) → Result E B → Result E B
m >> k = m >>= λ _. k

-- `if test: raise e`
abbrev pub raise_if {ℓ} : {E : Type ℓ} → Bool → E → Result E (Unit {0})
raise_if true e = raised e
raise_if false e = ok tt

-- the value of a call that returned
abbrev value_or {ℓ κ} : {E : Type ℓ} {A : Type κ} → A → Result E A → A
value_or d (ok a) = a
value_or d (raised e) = d

pub ok-injective {ℓ κ} :
    {E : Type ℓ} {A : Type κ} {a b : A} → ◌≡◌ {A = Result E A} (ok a) (ok b) → a ≡ b
ok-injective {a} h = ap (value_or a) h

-- Inversion of a call that returned.
pub bind-eq-ok {ℓ κ μ} :
    {E : Type ℓ} {A : Type κ} {B : Type μ} (m : Result E A) (f : A → Result E B) {b : B}
    → (m >>= f) ≡ ok b
    → (a : A) × (m ≡ ok a) × (f a ≡ ok b)
bind-eq-ok (ok a) f h = (a, refl, h)
bind-eq-ok (raised e) f h = cc

-- A test in front of a call that returned was not met.
pub raise_if-eq-ok {ℓ κ} :
    {E : Type ℓ} {A : Type κ} (b : Bool) (e : E) (r : Result E A) {x : A}
    → (raise_if b e >> r) ≡ ok x
    → (b ≡ false) × (r ≡ ok x)
raise_if-eq-ok true e r h = cc
raise_if-eq-ok false e r h = (refl, h)

pub if-eq-ok {ℓ κ} :
    {E : Type ℓ} {A : Type κ} (b : Bool) (a : A) (e : E) {x : A}
    → ◌≡◌ {A = Result E A} (if b then ok a else raised e) (ok x)
    → (b ≡ true) × (a ≡ x)
if-eq-ok true a e h = (refl, ok-injective h)
if-eq-ok false a e h = cc

-- What holds of the value, if the call returns.
pub record Ensures {ℓ κ μ} {E : Type ℓ} {A : Type κ} (P : A → Type μ) (r : Result E A)
    : Type (ℓ ⊔ κ ⊔ μ) where
  pub returns : (a : A) → r ≡ ok a → P a

module _ {ℓ κ μ ν} {E : Type ℓ} {A : Type κ} {B : Type ν} (Q : A → Type μ) (P : B → Type μ)
    (m : Result E A) (f : A → Result E B) where
  pub Ensures-bind : Ensures Q m → ((a : A) → Q a → Ensures P (f a)) → Ensures P (m >>= f)
  Ensures-bind hm hf = record {
    returns =
        λ b e. let (a, came, last) = bind-eq-ok m f e in (hf a (hm.returns a came)).returns b last;
  }

pub Ensures-ok {ℓ κ μ} :
    {E : Type ℓ} {A : Type κ} (P : A → Type μ) (a : A) → P a → Ensures {E = E} P (ok a)
Ensures-ok P a h = record { returns = λ b e. subst P (ok-injective e) h }

-- A loop over a list that keeps a state and may raise.
module _ {ℓ κ μ} {E : Type ℓ} {S : Type κ} {A : Type μ} (step : S → A → Result E S) where
  unfoldable pub fold_results : S → List A → Result E S
  fold_results s [] = ok s
  fold_results s (a ∷ as') = do s' ← step s a; fold_results s' as'

  pub fold_results-snoc :
      (s : S) (as' : List A) (a : A)
      → fold_results s (as' ++ a ∷ []) ≡ (do s' ← fold_results s as'; step s' a)
  unfolding fold_results
  fold_results-snoc s [] a = elim (step s a) as (λ o. (do s' ← o; ok s') ≡ o) [
    | ok x ↦ refl
    | raised e ↦ refl
  ]
  fold_results-snoc s (b ∷ as') a =
      elim (step s b)
        as (λ o.
          (do s' ← o; fold_results s' (as' ++ a ∷ []))
          ≡ (do s' ← (do s'' ← o; fold_results s'' as'); step s' a)) [
            | ok x ↦ fold_results-snoc x as' a
            | raised e ↦ refl
          ]

  -- What every step keeps, the loop keeps.
  pub fold_results-keeps {ν} :
      (P : S → Type ν)
      → ((s : S) (a : A) (s' : S) → step s a ≡ ok s' → P s → P s')
      → (s : S) (as' : List A) {t : S} → fold_results s as' ≡ ok t
      → P s
      → P t
  unfolding fold_results
  fold_results-keeps P keeps s [] h p = subst P (ok-injective h) p
  fold_results-keeps P keeps s (a ∷ as') h p =
      let (s', came, rest) = bind-eq-ok (step s a) _ h in
      fold_results-keeps P keeps s' as' rest (keeps s a s' came p)
