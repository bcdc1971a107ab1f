-- ===== src/Exec.antt =====
-- Methods that change shared state and may fail. What was written before an error stays written,
-- so the state comes back beside the error too.
pub mod Keeps
pub mod Post
use headless_mcp_server.Prelude.{◌≡◌, refl, Bool, true, false, Option, none, some, Result, ok, err}

abbrev pub Exec {ℓ κ} : Type ℓ → Type ℓ → Type κ → Type (ℓ ⊔ κ)
Exec S E A = S → Result A E × S

module _ {ℓ κ} {S E : Type ℓ} {A : Type κ} where
  abbrev pub raise : E → Exec S E A
  raise e s = (err e, s)

  abbrev pub lift : Result A E → Exec S E A
  lift r s = (r, s)

  -- `let _ = m;` and a `match` that only logs: the error is dropped, the state is kept.
  abbrev pub ignore : Exec S E A → Exec S E (Unit {0})
  ignore m s = (ok tt, (m s).1)

abbrev pub modify {ℓ} : {S E : Type ℓ} → (S → S) → Exec S E (Unit {0})
modify f s = (ok tt, f s)

abbrev pub continue {ℓ κ μ} :
    {S E : Type ℓ} {A : Type κ} {B : Type μ} → (A → Exec S E B) → Result A E → S → Result B E × S
continue f (ok a) s = f a s
continue f (err e) s = (err e, s)

infixl 5 ◌>>=◌ ◌>>◌
abbrev pub ◌>>=◌ {ℓ κ μ} :
    {S E : Type ℓ} {A : Type κ} {B : Type μ} → Exec S E A → (A → Exec S E B) → Exec S E B
◌>>=◌ m f s = continue f (m s).0 (m s).1

abbrev pub ◌>>◌ {ℓ κ μ} :
    {S E : Type ℓ} {A : Type κ} {B : Type μ} → Exec S E A → Exec S E B → Exec S E B
m >> n = m >>= λ _. n
