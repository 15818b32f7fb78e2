-- ===== src/Thread/Id.antt =====
-- include/crunch/concurrency/thread.hpp: `ThreadId` over `pthread_t`, which is a number here;
-- `pthread_equal` is a parameter.
use crunch_concurrency.Base.{ℕ, ◌≡◌, refl, Bool, true, false, not, if◌then◌else◌}

-- `mId` of an id that is not set is whatever the memory held.
pub record ThreadId : Type 0 where
  pub id : ℕ
  pub is_set : Bool

module _ (pthread_equal : ℕ → ℕ → Bool) where
  -- `operator==` and `operator!=`
  unfoldable pub eq : ThreadId → ThreadId → Bool
  eq a b = if not a.is_set then not b.is_set else pthread_equal a.id b.id

  unfoldable pub ne : ThreadId → ThreadId → Bool
  unfolding eq
  ne a b = not (eq a b)

  -- `==` is not symmetric: for every id that is set there is one that is not and to which it compares
  -- equal, while the other comparison of the same two says that they differ.
  pub eq_asymmetric :
      (a : ThreadId)
      → a.is_set ≡ true
      → ((n : ℕ) → pthread_equal n n ≡ true)
      → (b : ThreadId) × (b.is_set ≡ false) × (eq a b ≡ true) × (eq b a ≡ false) × (ne b a ≡ true)
  unfolding ne
  eq_asymmetric a h r =
      (record { id = a.id; is_set = false }, refl, rw (h, r a.id) refl, rw h refl, rw h refl)
