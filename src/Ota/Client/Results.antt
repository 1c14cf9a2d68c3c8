-- ===== src/Ota/Client/Results.antt =====
-- What may be said of a loop or a request that runs on fuel.
use pad_proxy.Base.{◌≡◌, Option, none, some}

abbrev pub Returns {ℓ} : {A : Type ℓ} → Option A → Type ℓ
Returns {A = A} o = (r : A) × (o ≡ some r)

-- What a run that ends satisfies.
abbrev pub OfResult : {A : Type 0} → (A → Type 0) → Option A → Type 0
OfResult P none = Unit
OfResult P (some r) = P r
