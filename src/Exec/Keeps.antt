-- ===== src/Exec/Keeps.antt =====
-- What holds of the state before a method and after it, whether it succeeds or fails.
use headless_mcp_server.Prelude.{Result, ok, err}
use headless_mcp_server.Exec.{Exec, continue, ◌>>=◌}

pub record Keeps {ℓ κ} {S E : Type ℓ} {A : Type κ} (P : S → Type ℓ) (m : Exec S E A) : Type ℓ where
  pub at : (s : S) → P s → P (m s).1

module _ {ℓ κ μ} {S E : Type ℓ} {A : Type κ} {B : Type μ} {P : S → Type ℓ} where
  continue-keeps :
      (f : A → Exec S E B) (r : Result A E) (s : S)
      → ((a : A) → Keeps P (f a))
      → P s
      → P (continue f r s).1
  continue-keeps f (ok a) s h p = (h a).at s p
  continue-keeps f (err e) s h p = p

  pub bind-Keeps :
      (m : Exec S E A) (f : A → Exec S E B)
      → Keeps P m
      → ((a : A) → Keeps P (f a))
      → Keeps P (m >>= f)
  bind-Keeps m f h k = record { at = λ s p. continue-keeps f (m s).0 (m s).1 k (h.at s p) }
