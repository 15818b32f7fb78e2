-- ===== src/Semaphore/Alone.antt =====
-- source/semaphore.cpp: what a call does that runs with no other step between its own.
use crunch_concurrency.Base.{
  ℕ, ◌+◌, ◌-◌, ◌%◌, ◌^◌, ◌≡◌, refl, ◌∙◌, List, [], ◌∷◌, ◌++◌, arith, sym, append-nil, Bool, true,
  false, not, if◌then◌else◌, Bool-cases, inl, inr, has,
}
use crunch_concurrency.Base.Machine.{update, solo, Reaches}
use crunch_concurrency.WaiterList.Packed.{
  get_pointer, set_pointer, add_aba, IsWaiter, get_pointer-swing, has_lock-swing,
}
use crunch_concurrency.WaiterList.Chain.{Chain-IsPointer, Chain-update, IsOpen}
use crunch_concurrency.Semaphore.Steps.{
  Memory, Pc, post, post_done, add, added, Choice, step, is_negative, is_positive,
}

-- The waiters that stay, and those that are notified, where one is popped if the test holds.
abbrev pub rest : Bool → List ℕ → List ℕ
rest true (x ∷ xs) = xs
rest _ xs = xs

abbrev pub popped : Bool → List ℕ → List ℕ
popped true (x ∷ xs) = x ∷ []
popped _ xs = []

module _ (c : Choice) (m : Memory) where
  abbrev pub Runs : Pc → Memory → Pc → Type 0
  Runs p m' p' = Reaches (step c) (m, p) (m', p')

  -- The semaphore after a `Post` that has popped `x`.
  with_popped : ℕ → Memory
  with_popped x = record m {
    count = (m.count + 1) % 2 ^ 32;
    posts = m.posts + 1;
    waiters = record (m.waiters) {
      word = add_aba (set_pointer m.waiters.word (m.waiters.next x));
      notified = m.waiters.notified ++ x ∷ [];
    };
  }

  with_post : Memory
  with_post = record m { count = (m.count + 1) % 2 ^ 32; posts = m.posts + 1 }

  -- What `Post` leaves behind.
  pub record Posted (xs : List ℕ) (m' : Memory) : Type 0 where
    pub runs : Runs post m' post_done
    pub counts : m'.count ≡ (m.count + 1) % 2 ^ 32
    pub opens : IsOpen m'.waiters (rest (is_negative m.count) xs)
    pub notifies : m'.waiters.notified ≡ m.waiters.notified ++ popped (is_negative m.count) xs

  post_plain :
      (xs : List ℕ) → is_negative m.count ≡ false → IsOpen m.waiters xs → Posted xs with_post
  unfolding step solo with_post
  post_plain xs e o = record {
    runs = (1, ground arith);
    counts = refl;
    opens = rw e o;
    notifies = rw e (sym (append-nil m.waiters.notified));
  }

  post_empty : is_negative m.count ≡ true → IsOpen m.waiters [] → Posted [] with_post
  unfolding step solo with_post
  post_empty e o = record {
    runs = (3, ground arith);
    counts = refl;
    opens = rw e o;
    notifies = rw e (sym (append-nil m.waiters.notified));
  }

  post_pops :
      (x : ℕ) (xs : List ℕ)
      → is_negative m.count ≡ true
      → IsOpen m.waiters (x ∷ xs)
      → Posted (x ∷ xs) (with_popped x)
  unfolding step solo with_popped
  post_pops x xs e o =
      let p = Chain-IsPointer m.waiters.next xs o.chain.3 in
      record {
        runs = (5, ground arith);
        counts = refl;
        opens = rw e (record {
          chain = rw (get_pointer-swing m.waiters.word (m.waiters.next x) p) o.chain.3;
          unlocked = has_lock-swing m.waiters.word (m.waiters.next x) p ∙ o.unlocked;
        });
        notifies = rw e refl;
      }

  -- `Post` counts up. Where the count was negative it pops and notifies the waiter that came last;
  -- where it was negative and no waiter is in the list, or it was not negative, nobody is notified
  -- and the list stays.
  pub post_alone : (xs : List ℕ) → IsOpen m.waiters xs → (m' : Memory) × Posted xs m'
  post_alone xs o = elim (Bool-cases (is_negative m.count)) [
    | inl e ↦ negative xs e o
    | inr e ↦ (with_post, post_plain xs e o)
  ]
    where
      negative :
          (ys : List ℕ)
          → is_negative m.count ≡ true
          → IsOpen m.waiters ys
          → (m' : Memory) × Posted ys m'
      negative [] e h = (with_post, post_empty e h)
      negative (x ∷ ys) e h = (with_popped x, post_pops x ys e h)

  -- The semaphore after an `AddWaiter` that pushed `w`.
  with_pushed : ℕ → Memory
  with_pushed w = record m {
    count = (m.count + 2 ^ 32 - 1) % 2 ^ 32;
    adds = m.adds + 1;
    waiters = record (m.waiters) {
      word = add_aba (set_pointer m.waiters.word w);
      next = update m.waiters.next w (get_pointer m.waiters.word);
    };
  }

  with_taken : Memory
  with_taken = record m {
    count = (m.count + 2 ^ 32 - 1) % 2 ^ 32;
    adds = m.adds + 1;
    acquired = m.acquired + 1;
  }

  -- What `AddWaiter` leaves behind.
  pub record Added (w : ℕ) (xs : List ℕ) (m' : Memory) : Type 0 where
    pub runs : Runs (add w) m' (added (not (is_positive m.count)))
    pub counts : m'.count ≡ (m.count + 2 ^ 32 - 1) % 2 ^ 32
    pub opens : IsOpen m'.waiters (if is_positive m.count then xs else w ∷ xs)
    pub notifies : m'.waiters.notified ≡ m.waiters.notified

  add_takes :
      (w : ℕ) (xs : List ℕ)
      → is_positive m.count ≡ true
      → IsOpen m.waiters xs
      → Added w xs with_taken
  unfolding step solo with_taken
  add_takes w xs e o = record {
    runs = rw e (1, rw e refl);
    counts = refl;
    opens = rw e o;
    notifies = refl;
  }

  add_pushes :
      (w : ℕ) (xs : List ℕ)
      → IsWaiter w
      → has w xs ≡ false
      → is_positive m.count ≡ false
      → IsOpen m.waiters xs
      → Added w xs (with_pushed w)
  unfolding step solo with_pushed
  add_pushes w xs iw out e o = record {
    runs = rw e (4, rw e (ground arith));
    counts = refl;
    opens = rw e (record {
      chain = (
        get_pointer-swing m.waiters.word w iw.pointer,
        iw,
        out,
        ground (
          arith,
          Chain-update m.waiters.next (get_pointer m.waiters.word) w (get_pointer m.waiters.word) xs
              out o.chain,
        ),
      );
      unlocked = has_lock-swing m.waiters.word w iw.pointer ∙ o.unlocked;
    });
    notifies = refl;
  }

  -- `AddWaiter` of a waiter that is not in the list counts down. Where the count was positive it
  -- returns false and leaves the list; otherwise it returns true and the waiter comes first in the
  -- list. Nobody is notified.
  pub semaphore_add_alone :
      (w : ℕ) (xs : List ℕ)
      → IsWaiter w
      → has w xs ≡ false
      → IsOpen m.waiters xs
      → (m' : Memory) × Added w xs m'
  semaphore_add_alone w xs iw out o = elim (Bool-cases (is_positive m.count)) [
    | inl e ↦ (with_taken, add_takes w xs e o)
    | inr e ↦ (with_pushed w, add_pushes w xs iw out e o)
  ]
