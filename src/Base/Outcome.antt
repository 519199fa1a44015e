-- ===== src/Base/Outcome.antt =====
-- The outcomes of C code: a value, an access outside an array or through NULL, or (in the model
-- alone) a loop whose fuel ran out.
use mathlib.Core.Path.{◌≡◌, refl, subst}
use mathlib.Core.Bool.{Bool, true, false}
use mathlib.Core.Option.{Option, none, some, some-injective, none-ne-some}
use curl_loader.Base.Arrays.{if◌then◌else◌}

pub data Run {ℓ} (A : Type ℓ) : Type ℓ where
  ok : A → Run A
  fault out_of_fuel : Run A

infixl 5 ◌>>=◌ ◌>>◌
abbrev pub ◌>>=◌ {ℓ κ} : {A : Type ℓ} {B : Type κ} → Run A → (A → Run B) → Run B
ok a >>= k = k a
fault >>= k = fault
out_of_fuel >>= k = out_of_fuel

abbrev pub ◌>>◌ {ℓ} : {B : Type ℓ} → Run (Unit {0}) → Run B → Run B
m >> k = m >>= λ _. k

-- `assert b`: the access that follows is inside its array.
abbrev pub within {ℓ} : {A : Type ℓ} → Bool → A → Run A
within true a = ok a
within false a = fault

-- The run ends with a value, and the value satisfies `P`.
pub data Yields {ℓ κ} {A : Type ℓ} (P : A → Type κ) : Run A → Type (ℓ ⊔ κ) where
  yields : {a : A} → P a → Yields P (ok a)

module _ {ℓ κ} {A : Type ℓ} {P : A → Type κ} where
  pub Yields-bind {ℓ' κ'} :
      {B : Type ℓ'} {Q : B → Type κ'} {m : Run A} {k : A → Run B}
      → Yields P m
      → ((a : A) → P a → Yields Q (k a))
      → Yields Q (m >>= k)
  Yields-bind (yields p) next = next _ p

  pub Yields-imp {κ'} :
      {Q : A → Type κ'} {m : Run A} → Yields P m → ((a : A) → P a → Q a) → Yields Q m
  Yields-imp (yields p) weaken = yields (weaken _ p)

  pub Yields-ok : {m : Run A} → Yields P m → (a : A) × (m ≡ ok a) × P a
  Yields-ok (yields p) = (_, refl, p)

  pub Yields-branch :
      {x y : Run A} (b : Bool)
      → (b ≡ true → Yields P x)
      → (b ≡ false → Yields P y)
      → Yields P (if b then x else y)
  Yields-branch true p q = p refl
  Yields-branch false p q = q refl

  pub Yields-option {ℓ'} :
      {C : Type ℓ'} {x : Run A} {y : C → Run A} (o : Option C)
      → (o ≡ none → Yields P x)
      → ((c : C) → o ≡ some c → Yields P (y c))
      → Yields P (elim o [ none ↦ x | some c ↦ y c ])
  Yields-option none p q = p refl
  Yields-option (some c) p q = q c refl

-- If the run ends with a value, the value satisfies `P`.
pub data Holds {ℓ κ} {A : Type ℓ} (P : A → Type κ) : Run A → Type (ℓ ⊔ κ) where
  holds : {a : A} → P a → Holds P (ok a)
  faulty : Holds P fault
  spent : Holds P out_of_fuel

module _ {ℓ κ} {A : Type ℓ} {P : A → Type κ} where
  pub Holds-bind {ℓ' κ'} :
      {B : Type ℓ'} {Q : B → Type κ'} {m : Run A} {k : A → Run B}
      → Holds P m
      → ((a : A) → P a → Holds Q (k a))
      → Holds Q (m >>= k)
  Holds-bind (holds p) next = next _ p
  Holds-bind faulty next = faulty
  Holds-bind spent next = spent

  pub Holds-branch :
      {x y : Run A} (b : Bool)
      → (b ≡ true → Holds P x)
      → (b ≡ false → Holds P y)
      → Holds P (if b then x else y)
  Holds-branch true p q = p refl
  Holds-branch false p q = q refl

  pub Holds-within : (b : Bool) (a : A) → P a → Holds P (within b a)
  Holds-within true a p = holds p
  Holds-within false a p = faulty

  pub Yields-Holds {κ'} :
      {Q : A → Type κ'} {m : Run A} → Yields P m → Holds Q m → Yields (λ a. P a × Q a) m
  Yields-Holds (yields p) (holds q) = yields (p, q)

-- `P` holds of the value, if there is one.
pub data IfSome {ℓ κ} {A : Type ℓ} (P : A → Type κ) : Option A → Type (ℓ ⊔ κ) where
  if_none : IfSome P none
  if_some : {a : A} → P a → IfSome P (some a)

module _ {ℓ κ} {A : Type ℓ} {P : A → Type κ} where
  pub IfSome-branch :
      {x y : Option A} (b : Bool)
      → (b ≡ true → IfSome P x)
      → (b ≡ false → IfSome P y)
      → IfSome P (if b then x else y)
  IfSome-branch true p q = p refl
  IfSome-branch false p q = q refl

  pub IfSome-chain {ℓ' κ'} :
      {B : Type ℓ'} {Q : B → Type κ'} {k : B → Option A} {m : Option B}
      → IfSome Q m
      → ((b : B) → Q b → IfSome P (k b))
      → IfSome P (elim m [ none ↦ none | some b ↦ k b ])
  IfSome-chain if_none next = if_none
  IfSome-chain (if_some q) next = next _ q

  pub IfSome-imp {κ'} :
      {Q : A → Type κ'} {m : Option A} → IfSome P m → ((a : A) → P a → Q a) → IfSome Q m
  IfSome-imp if_none weaken = if_none
  IfSome-imp (if_some p) weaken = if_some (weaken _ p)

  pub IfSome-option {ℓ'} :
      {C : Type ℓ'} {x : Option A} {y : C → Option A} (o : Option C)
      → (o ≡ none → IfSome P x)
      → ((c : C) → o ≡ some c → IfSome P (y c))
      → IfSome P (elim o [ none ↦ x | some c ↦ y c ])
  IfSome-option none p q = p refl
  IfSome-option (some c) p q = q c refl

  pub IfSome-value : {m : Option A} {a : A} → IfSome P m → m ≡ some a → P a
  IfSome-value if_none e = absurd (none-ne-some _ e)
  IfSome-value (if_some p) e = subst P (some-injective _ _ e) p
