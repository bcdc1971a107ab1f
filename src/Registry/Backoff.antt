-- ===== src/Registry/Backoff.antt =====
-- crates/registry/src/lib.rs: the delay before a reconnect attempt, as the release build computes
-- it: `2u64.pow` and `*` wrap around at 2^64, and the attempt counter at 2^32.
use Prim.Native.Nat.{◌^◌}
use native.Mathlib.Nat.{pow-suc}
use headless_mcp_server.Prelude.{
  ℕ, zero, suc, ◌+◌, ◌-◌, ◌*◌, ◌%◌, ◌<◌, ◌≤◌, ◌≡◌, refl, Bool, true, false, arith, min, eqb,
  eqb_iff, if◌then◌else◌,
}

abbrev pub u64_mod : ℕ
u64_mod = 2 ^ 64

abbrev pub reconnect_base_delay_ms : ℕ
reconnect_base_delay_ms = 1000

abbrev pub reconnect_max_delay_ms : ℕ
reconnect_max_delay_ms = 60000

abbrev pub next_attempt : ℕ → ℕ
next_attempt attempts = (attempts + 1) % 2 ^ 32

-- `2u64.pow(k)`
pub wrapping_pow2 : ℕ → ℕ
wrapping_pow2 k = 2 ^ k % u64_mod

unfoldable pub delay_ms : ℕ → ℕ
unfolding wrapping_pow2
delay_ms attempt =
    min (reconnect_base_delay_ms * wrapping_pow2 (attempt - 1) % u64_mod) reconnect_max_delay_ms

holds_before : (ℕ → Bool) → ℕ → Bool
holds_before test zero = true
holds_before test (suc top) = let rest = holds_before test top in if test top then rest else false

holds_before-at :
    (test : ℕ → Bool) (top k : ℕ) → k < top → holds_before test top ≡ true → test k ≡ true
unfolding holds_before
holds_before-at test zero k below every = absurd (omega arith)
holds_before-at test (suc top) k below every = ground (arith, holds_before-at test top k)

-- For the first 61 attempts in a row the delay doubles from one second up to a minute.
pub delay-eq-doubling :
    (attempt : ℕ) → attempt < 62 → delay_ms attempt ≡ min (1000 * 2 ^ (attempt - 1)) 60000
delay-eq-doubling attempt h = (eqb_iff _ _).0 (
    holds_before-at (λ a. eqb (delay_ms a) (min (1000 * 2 ^ (a - 1)) 60000)) 62 attempt h
      (unfold holds_before delay_ms in refl))

thousand-pow2 : (k : ℕ) → 1000 * wrapping_pow2 (k + 61) % u64_mod ≡ 0
unfolding wrapping_pow2
thousand-pow2 zero = refl
thousand-pow2 (suc k) =
    let e : suc k + 61 ≡ suc (k + 61) = omega arith in
    rw e (omega (arith, thousand-pow2 k, pow-suc 2 (k + 61)))

-- From the 62nd failed attempt in a row on, the product is a multiple of 2^64 and there is no
-- delay at all.
pub delay-eq-zero : (attempt : ℕ) → 62 ≤ attempt → delay_ms attempt ≡ 0
unfolding delay_ms
delay-eq-zero attempt h =
    let e : attempt - 1 ≡ attempt - 62 + 61 = omega arith in
    rw e (omega (arith, thousand-pow2 (attempt - 62)))
