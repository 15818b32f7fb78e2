-- ===== src/Atomic/Builtins.antt =====
-- The compiler's `__sync` builtins, which platform/linux/atomic_ops_x86.hpp calls: each changes a
-- cell and returns its old value. The laws are their documented behaviour.
use crunch_concurrency.Base.{ℕ, ◌+◌, ◌-◌, ◌%◌, ◌<◌, ◌≡◌, refl, ◌==◌, if◌then◌else◌}
use Prim.Native.Nat.{bit_and, bit_or, bit_xor}

-- The builtins on cells of `w` values: new cell and old value.
pub record Builtins (w : ℕ) : Type 0 where
  pub fetch_and_add : ℕ → ℕ → ℕ × ℕ
  pub fetch_and_sub : ℕ → ℕ → ℕ × ℕ
  pub fetch_and_and : ℕ → ℕ → ℕ × ℕ
  pub fetch_and_or : ℕ → ℕ → ℕ × ℕ
  pub fetch_and_xor : ℕ → ℕ → ℕ × ℕ
  pub lock_test_and_set : ℕ → ℕ → ℕ × ℕ
  pub val_compare_and_swap : ℕ → ℕ → ℕ → ℕ × ℕ
  pub add_law : (c v : ℕ) → c < w → v < w → fetch_and_add c v ≡ ((c + v) % w, c)
  pub sub_law : (c v : ℕ) → c < w → v < w → fetch_and_sub c v ≡ ((c + w - v) % w, c)
  pub and_law : (c v : ℕ) → c < w → v < w → fetch_and_and c v ≡ (bit_and c v, c)
  pub or_law : (c v : ℕ) → c < w → v < w → fetch_and_or c v ≡ (bit_or c v, c)
  pub xor_law : (c v : ℕ) → c < w → v < w → fetch_and_xor c v ≡ (bit_xor c v, c)
  pub swap_law : (c v : ℕ) → c < w → v < w → lock_test_and_set c v ≡ (v, c)
  pub cas_law :
      (c cmp v : ℕ)
      → c < w
      → cmp < w
      → v < w
      → val_compare_and_swap c cmp v ≡ (if c == cmp then v else c, c)

-- Builtins that do what the laws say.
abbrev pub plain : (w : ℕ) → Builtins w
plain w = record {
  fetch_and_add = λ c v. ((c + v) % w, c);
  fetch_and_sub = λ c v. ((c + w - v) % w, c);
  fetch_and_and = λ c v. (bit_and c v, c);
  fetch_and_or = λ c v. (bit_or c v, c);
  fetch_and_xor = λ c v. (bit_xor c v, c);
  lock_test_and_set = λ c v. (v, c);
  val_compare_and_swap = λ c cmp v. (if c == cmp then v else c, c);
  add_law = λ c v _ _. refl;
  sub_law = λ c v _ _. refl;
  and_law = λ c v _ _. refl;
  or_law = λ c v _ _. refl;
  xor_law = λ c v _ _. refl;
  swap_law = λ c v _ _. refl;
  cas_law = λ c cmp v _ _ _. refl;
}
