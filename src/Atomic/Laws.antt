-- ===== src/Atomic/Laws.antt =====
-- What the atomic integers of atomic.hpp promise, over any builtins that keep their laws.
use crunch_concurrency.Base.{
  ℕ, ◌+◌, ◌-◌, ◌%◌, ◌<◌, ◌≡◌, ◌≢◌, refl, arith, ◌==◌, if◌then◌else◌, ◌∙◌, ap, ◌⊎◌, inl, inr, ◌≤◌,
}
use native.Mathlib.Decide.{dec_lt}
use native.Mathlib.Nat.{mod-eq_of_lt, mod-eq-sub-mod}
use crunch_concurrency.Atomic.Builtins.{Builtins}
use crunch_concurrency.Atomic.Integer.{
  compare_and_swap, increment, add, sub, pre_increment, post_increment, pre_decrement,
  post_decrement, add_assign, sub_assign,
}

-- Sums of two numbers below the modulus.
pub mod_cases : (w x : ℕ) → x < w + w → ((x < w) × (x % w ≡ x)) ⊎ ((w ≤ x) × (x % w ≡ x - w))
mod_cases w x h = elim (dec_lt x w) [
  | yes lt ↦ inl (lt, mod-eq_of_lt lt)
  | no ge ↦ inr (omega arith, mod-eq-sub-mod (omega arith) ∙ mod-eq_of_lt (omega arith))
]

pub sub-add-mod : (w c v : ℕ) → c < w → v < w → ((c + v) % w + w - v) % w ≡ c
sub-add-mod w c v hc hv = ground (arith, mod_cases w (c + v), mod_cases w ((c + v) % w + w - v))

up-ne-down : (w c : ℕ) → c < w → 2 < w → (c + 1) % w ≢ (c + w - 1) % w
up-ne-down w c hc two e = ground (arith, e, mod_cases w (c + 1), mod_cases w (c + w - 1))

module _ {w : ℕ} (b : Builtins w) where
  -- `CompareAndSwap` succeeds exactly when the cell holds `cmp`: then the cell becomes `src`;
  -- otherwise the cell stays. Either way `cmp` becomes the value that the cell held.
  pub compare_and_swap_lem :
      (c cmp src : ℕ)
      → c < w
      → cmp < w
      → src < w
      → compare_and_swap b c cmp src ≡ (if c == cmp then src else c, c, c == cmp)
  unfolding compare_and_swap
  compare_and_swap_lem c cmp src hc hm hs = rw (b.cas_law c cmp src hc hm hs)

  increment-fst : (c : ℕ) → c < w → 1 < w → increment b c ≡ ((c + 1) % w, c)
  unfolding increment
  increment-fst c h one = b.add_law c 1 h one

  -- `Sub` undoes `Add`, for every cell and value below the modulus, wrapping included: the cell is as
  -- before, `Add` returns the value that it met, and `Sub` the sum.
  pub sub-add :
      (c v : ℕ) → c < w → v < w → (sub b (add b c v).0 v ≡ (c, (c + v) % w)) × ((add b c v).1 ≡ c)
  unfolding add sub
  sub-add c v hc hv = rw (b.add_law c v hc hv) (
    b.sub_law ((c + v) % w) v (omega arith) hv
        ∙ ap (λ k. (k, (c + v) % w)) (sub-add-mod w c v hc hv),
    refl,
  )

  -- `++x`, `x += v` and `x -= v` return what the cell then holds; `x++` returns what it held.
  pub operators_return :
      (c v : ℕ)
      → c < w
      → v < w
      → 1 < w
      → ((pre_increment b c).1 ≡ (pre_increment b c).0)
        × (post_increment b c ≡ ((c + 1) % w, c))
        × ((add_assign b c v).1 ≡ (add_assign b c v).0)
        × ((sub_assign b c v).1 ≡ (sub_assign b c v).0)
  unfolding pre_increment post_increment add_assign sub_assign
  operators_return c v hc hv one =
      ground (arith, b.add_law c 1 hc one, b.add_law c v hc hv, b.sub_law c v hc hv)

  -- `--x` and `x--` count up: after either the cell holds one more, and with more than two values not
  -- one less.
  pub decrement_operators_increment :
      (c : ℕ)
      → c < w
      → 2 < w
      → ((pre_decrement b c).0 ≡ (c + 1) % w)
        × ((post_decrement b c).0 ≡ (c + 1) % w)
        × ((c + 1) % w ≢ (c + w - 1) % w)
  unfolding pre_decrement post_decrement
  decrement_operators_increment c hc two = (
    ap (λ r. r.0) (b.add_law c 1 hc (omega arith)),
    ap (λ r. r.0) (b.add_law c 1 hc (omega arith)),
    up-ne-down w c hc two,
  )
