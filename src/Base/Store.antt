-- ===== src/Base/Store.antt =====
-- Memory as a map from addresses (or indices) to values, and its one write.
use Prim.Native.Nat.{ℕ}
use mathlib.Core.Path.{◌≡◌, fun_ext}
use mathlib.Core.Logic.{◌≢◌}
use native.Mathlib.Omega.{arith}
use tie_zhu_os.Base.Tests.{◌==◌, if◌then◌else◌}

-- Bytes or words by their address.
abbrev pub Memory : Type 0
Memory = ℕ → ℕ

abbrev pub update {ℓ} : {V : Type ℓ} → (ℕ → V) → ℕ → V → ℕ → V
update m a v b = if a == b then v else m b

module _ {ℓ} {V : Type ℓ} where
  pub update_self : (m : ℕ → V) (a : ℕ) (v : V) → update m a v a ≡ v
  update_self m a v = ground arith

  pub update_ne : (m : ℕ → V) (a b : ℕ) (v : V) → a ≢ b → update m a v b ≡ m b
  update_ne m a b v h = ground arith

  pub update_twice : (m : ℕ → V) (a : ℕ) (v w : V) → update (update m a v) a w ≡ update m a w
  update_twice m a v w = fun_ext λ b. ground arith
