-- ===== src/Exec/Post.antt =====
-- What holds of the result of a chain and the state after it, step by step.
use headless_mcp_server.Prelude.{◌≡◌, refl, Result, ok, err}
use headless_mcp_server.Exec.{Exec, continue, ◌>>=◌}

module _ {ℓ κ μ ν} {S E : Type ℓ} {A : Type κ} {B : Type μ} (Q : Result B E → S → Type ν) where
  continue-Post :
      (f : A → Exec S E B) (r : Result A E) (s : S)
      → ((e : E) → r ≡ err e → Q (err e) s)
      → ((a : A) → r ≡ ok a → Q (f a s).0 (f a s).1)
      → Q (continue f r s).0 (continue f r s).1
  continue-Post f (ok a) s bad good = good a refl
  continue-Post f (err e) s bad good = bad e refl

  pub bind-Post :
      (m : Exec S E A) (f : A → Exec S E B) (s : S)
      → ((e : E) → (m s).0 ≡ err e → Q (err e) (m s).1)
      → ((a : A) → (m s).0 ≡ ok a → Q (f a (m s).1).0 (f a (m s).1).1)
      → Q ((m >>= f) s).0 ((m >>= f) s).1
  bind-Post m f s bad good = continue-Post f (m s).0 (m s).1 bad good
