-- ===== src/Atomic/Equivalence.antt =====
-- The two sets of platform operations, platform/linux/atomic_ops_x86.hpp and
-- platform/win32/atomic_ops_x86.hpp, against each other.
use crunch_concurrency.Base.{
  ℕ, ◌+◌, ◌-◌, ◌%◌, ◌<◌, ◌≡◌, sym, ◌∙◌, ap, arith, true, some, List, [], ◌∷◌, ◌==◌, ==_iff,
  if◌then◌else◌, Bool-cases, inl, inr, has,
}
use crunch_concurrency.Atomic.Builtins.{Builtins}
use crunch_concurrency.Atomic.Laws.{mod_cases, sub-add-mod}
use crunch_concurrency.Atomic.Linux.{
  atomic_swap, atomic_compare_and_swap, atomic_increment, atomic_decrement, atomic_add, atomic_sub,
  atomic_and, atomic_or, atomic_xor,
}
use crunch_concurrency.Atomic.Win32.{
  Intrinsics, win32_swap, win32_compare_and_swap, win32_increment, win32_decrement, win32_add,
  win32_sub, win32_and, win32_or, win32_xor, fallback_atomic_op,
}

down_up : (w c : ℕ) → c < w → 1 < w → ((c + w - 1) % w + 1) % w ≡ c
down_up w c h one = ground (arith, mod_cases w (c + w - 1), mod_cases w ((c + w - 1) % w + 1))

add-neg : (w c v : ℕ) → c < w → v < w → (c + (w - v) % w) % w ≡ (c + w - v) % w
add-neg w c v hc hv =
    ground (arith, mod_cases w (w - v), mod_cases w (c + (w - v) % w), mod_cases w (c + w - v))

==_sym : (a b : ℕ) → (a == b) ≡ (b == a)
==_sym a b = ground (arith, ==_iff a b, ==_iff b a)

module _ {w : ℕ} (b : Builtins w) (i : Intrinsics w) where
  -- On cells and values below `w` the operations of the two platforms are the same: new cell, result
  -- and, of the exchange, what becomes of `cmp`.
  pub linux-eq-win32 :
      (c v cmp : ℕ)
      → c < w
      → v < w
      → cmp < w
      → 1 < w
      → (atomic_swap b c v ≡ win32_swap i c v)
        × (atomic_compare_and_swap b c cmp v ≡ win32_compare_and_swap i c cmp v)
        × (atomic_increment b c ≡ win32_increment i c)
        × (atomic_decrement b c ≡ win32_decrement i c)
        × (atomic_add b c v ≡ win32_add i c v)
        × (atomic_sub b c v ≡ win32_sub i c v)
        × (atomic_and b c v ≡ win32_and i c v)
        × (atomic_or b c v ≡ win32_or i c v)
        × (atomic_xor b c v ≡ win32_xor i c v)
  unfolding atomic_swap atomic_compare_and_swap atomic_increment atomic_decrement atomic_add
      atomic_sub atomic_and atomic_or atomic_xor win32_swap win32_compare_and_swap win32_increment
      win32_decrement win32_add win32_sub win32_and win32_or win32_xor
  linux-eq-win32 c v cmp hc hv hm one = (
    b.swap_law c v hc hv ∙ sym (i.exchange_law c v hc hv),
    rw (b.cas_law c cmp v hc hm hv, i.compare_exchange_law c v cmp hc hv hm)
        (ap (λ t. (if c == cmp then v else c, c, t)) (==_sym c cmp)),
    rw (b.add_law c 1 hc one, i.increment_law c hc)
        (ap (λ n. ((c + 1) % w, n)) (sym (sub-add-mod w c 1 hc one))),
    rw (b.sub_law c 1 hc one, i.decrement_law c hc)
        (ap (λ n. ((c + w - 1) % w, n)) (sym (down_up w c hc one))),
    b.add_law c v hc hv ∙ sym (i.add_law c v hc hv),
    b.sub_law c v hc hv
        ∙ ap (λ n. (n, c)) (sym (add-neg w c v hc hv))
        ∙ sym (i.add_law c ((w - v) % w) hc (ground (arith, mod_cases w (w - v)))),
    b.and_law c v hc hv ∙ sym (i.and_law c v hc hv),
    b.or_law c v hc hv ∙ sym (i.or_law c v hc hv),
    b.xor_law c v hc hv ∙ sym (i.xor_law c v hc hv),
  )

-- Every value of a list is below `w`.
abbrev pub AllBelow : ℕ → List ℕ → Type 0
AllBelow w [] = Unit
AllBelow w (x ∷ xs) = (x < w) × AllBelow w xs

module _ {w : ℕ} (i : Intrinsics w) (op : ℕ → ℕ) (closed : (x : ℕ) → x < w → op x < w) where
  -- However other threads change the cell between its exchanges, where `FallbackAtomicOp` returns, it
  -- has made its operation in one step: on a value that the cell held at one of the exchanges, which it
  -- returns. It returns at the second of two exchanges that find the same value.
  pub fallback-atomic :
      (old : ℕ) (met : List ℕ) (at new result : ℕ)
      → old < w
      → AllBelow w met
      → fallback_atomic_op i op old met ≡ some (at, new, result)
      → (has at met ≡ true) × (new ≡ op at) × (result ≡ at)
  unfolding fallback_atomic_op
  fallback-atomic old [] at new result h hs e = absurd (ground (arith, e))
  fallback-atomic old (cell ∷ met) at new result h hs e = elim (Bool-cases (cell == old)) [
    | inl won ↦ ground (
      arith,
      i.compare_exchange_law cell (op old) old hs.0 (closed old h) h,
      ==_iff cell old,
      ==_iff cell at,
    )
    | inr lost ↦ ground (
      arith,
      i.compare_exchange_law cell (op old) old hs.0 (closed old h) h,
      fallback-atomic cell met at new result hs.0 hs.1,
    )
  ]

  -- Where the cell stays as it is over two exchanges, whatever the loop began with, `FallbackAtomicOp`
  -- returns: the cell has the result of the operation, and the caller the value before it.
  pub fallback-returns :
      (old cell : ℕ) (met : List ℕ)
      → old < w
      → cell < w
      → fallback_atomic_op i op old (cell ∷ cell ∷ met) ≡ some (cell, op cell, cell)
  unfolding fallback_atomic_op
  fallback-returns old cell met h hc = ground (
    arith,
    ==_iff cell old,
    ==_iff cell cell,
    i.compare_exchange_law cell (op old) old hc (closed old h) h,
    i.compare_exchange_law cell (op cell) cell hc (closed cell hc) hc,
  )
