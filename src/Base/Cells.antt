-- ===== src/Base/Cells.antt =====
-- Shared memory: cells by location, as Rust's `Arc` shares one object among its clones.
use Prim.Native.Nat.{ℕ}
use mathlib.Core.Path.{◌≡◌}
use mathlib.Core.Logic.{◌≢◌}
use native.Mathlib.Omega.{arith}
use waltz.Base.Tests.{◌==◌, if◌then◌else◌}

abbrev pub Cells {ℓ} : Type ℓ → Type ℓ
Cells A = ℕ → A

abbrev pub update {ℓ} : {A : Type ℓ} → Cells A → ℕ → A → Cells A
update f i a j = if i == j then a else f j

module _ {ℓ} {A : Type ℓ} (f : Cells A) (i : ℕ) (a : A) where
  pub update_self : update f i a i ≡ a
  update_self = ground arith

  pub update-ne : (j : ℕ) → i ≢ j → update f i a j ≡ f j
  update-ne j h = ground arith
