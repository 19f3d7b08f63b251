-- ===== src/Cluster/Family.antt =====
-- Families indexed by node: one entry changed, and sums over the nodes from 1 to the last.
use native.Mathlib.Decide.{dec_lt, ℕ_discrete}
use native.Mathlib.Nat.{zero-mul, suc-mul}
use mathlib.Core.Logic.{ite}
use ppi_chi_nettest.Base.{ℕ, zero, suc, ◌+◌, ◌*◌, ◌≤◌, ◌<◌, ◌≡◌, ◌≢◌, refl, arith}

abbrev pub update : {A : Type 0} → (ℕ → A) → ℕ → A → ℕ → A
update f i a j = ite (ℕ_discrete i j) a (f j)

module _ {A : Type 0} (f : ℕ → A) (i j : ℕ) (a : A) where
  pub update-eq : i ≡ j → update f i a j ≡ a
  update-eq same = ground arith

  pub update-other : i ≢ j → update f i a j ≡ f j
  update-other other = ground arith

module _ {A : Type 0} (w : A → ℕ) where
  -- The sum of the weights of the entries from 1 to n.
  unfoldable pub total : ℕ → (ℕ → A) → ℕ
  total zero f = 0
  total (suc n) f = total n f + w (f (suc n))

  total-update_above :
      (n : ℕ) (f : ℕ → A) (i : ℕ) (a : A) → n < i → total n (update f i a) ≡ total n f
  unfolding total
  total-update_above zero f i a h = refl
  total-update_above (suc n) f i a h = ground (arith, total-update_above n f i a)

  pub total-update :
      (n : ℕ) (f : ℕ → A) (i : ℕ) (a : A)
      → 1 ≤ i
      → i ≤ n
      → total n (update f i a) + w (f i) ≡ total n f + w a
  unfolding total
  total-update zero f i a low high = absurd (omega arith)
  total-update (suc n) f i a low high = elim (dec_lt n i) [
    | yes last ↦ ground (arith, total-update_above n f i a)
    | no below ↦ ground (arith, total-update n f i a low)
  ]

  pub total-const : (n k : ℕ) (a : A) → w a ≡ k → total n (λ _. a) ≡ n * k
  unfolding total
  total-const zero k a h = omega (arith, zero-mul k)
  total-const (suc n) k a h = omega (arith, total-const n k a h, suc-mul n k)
