-- ===== src/Db/Holds.antt =====
-- Properties of the committed tables that operations preserve, whatever the schedule of faults.
use quota_management.Prelude.{◌≡◌, sym, subst, if◌then◌else◌, Bool, some, inl, inr, if_lem}
use quota_management.Db.World.{
  Result, ok, err, World, Tables, M, Statement, ◌>>=◌, continue, pool, query,
}
use quota_management.Db.Keeps.{pool-tables}

abbrev pub Holds {ℓ κ} : {A : Type ℓ} → (Tables → Type κ) → M A → Type κ
Holds P m = (w : World) → P w.tables → P (m w).1.tables

module _ {κ} (P : Tables → Type κ) where
  continue-Holds {ℓ ℓ'} :
      {A : Type ℓ} {B : Type ℓ'} (f : A → M B) (r : Result A) (w : World)
      → ((a : A) → Holds P (f a))
      → P w.tables
      → P (continue r f w).1.tables
  continue-Holds f (ok a) w k h = k a w h
  continue-Holds f (err e) w k h = h

  pub bind-Holds {ℓ ℓ'} :
      {A : Type ℓ} {B : Type ℓ'} (m : M A) (f : A → M B)
      → Holds P m
      → ((a : A) → Holds P (f a))
      → Holds P (m >>= f)
  bind-Holds m f h k w p = continue-Holds f (m w).0 (m w).1 k (h w p)

  -- A statement that leads from the property to the property.
  pub pool-Holds {ℓ} :
      {A : Type ℓ} (s : Statement A)
      → ((t t' : Tables) (a : A) → s t ≡ some (a, t') → P t → P t')
      → Holds P (pool s)
  pool-Holds s h w p = elim (pool-tables s w) [
    | inl same ↦ subst P (sym same) p
    | inr (a, t, e, done) ↦ subst P (sym done) (h w.tables t a e p)
  ]

  pub query-Holds {ℓ} : {A : Type ℓ} (f : Tables → A) → Holds P (pool (query f))
  query-Holds f = pool-Holds (query f) (λ t t' a e p. subst P (cc e) p)

  pub if-Holds {ℓ} :
      {A : Type ℓ} (b : Bool) (m n : M A) → Holds P m → Holds P n → Holds P (if b then m else n)
  if-Holds {A = A} b m n h k = if_lem (λ (m : M A). Holds P m) b {x = m} {y = n} h k
