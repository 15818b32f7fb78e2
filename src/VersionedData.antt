-- ===== src/VersionedData.antt =====
-- include/crunch/concurrency/versioned_data.hpp: data with a version that every update counts up. The
-- lock makes `Update` and the read one step each.
mod Tests
use crunch_concurrency.Base.{
  ℕ, zero, suc, ◌+◌, ◌%◌, ◌^◌, ◌<◌, ◌≤◌, ◌≡◌, refl, arith, Bool, true, false, Option, none, some,
  not, ◌==◌, if◌then◌else◌, List, [], ◌∷◌, length,
}

-- `mVersion` (`uint32_t`) and `mData`.
pub record Versioned (T : Type 0) : Type 0 where
  pub version : ℕ
  pub value : T

module _ {T : Type 0} where
  -- `VersionedData::VersionedData`, of a default value
  unfoldable pub create : T → (initial_version : ℕ) → Versioned T
  create t initial_version = record { version = initial_version; value = t }

  -- `HasChanged`
  unfoldable pub has_changed : Versioned T → (last_seen_version : ℕ) → Bool
  has_changed d last_seen_version = not (last_seen_version == d.version)

  -- `Update`: the callback changes the data.
  unfoldable pub update_data : (T → T) → Versioned T → Versioned T
  update_data f d = record { version = (d.version + 1) % 2 ^ 32; value = f d.value }

  -- `ReadIfDifferent`: the new local version, and the data that the callback is given, if it is called.
  unfoldable pub read_if_different : Versioned T → (local_version : ℕ) → ℕ × Option T
  read_if_different d local_version =
      if not (local_version == d.version) then (d.version, some d.value) else (local_version, none)

  abbrev pub update_all : List (T → T) → Versioned T → Versioned T
  update_all [] d = d
  update_all (f ∷ fs) d = update_all fs (update_data f d)

  abbrev pub apply_all : List (T → T) → T → T
  apply_all [] t = t
  apply_all (f ∷ fs) t = apply_all fs (f t)

  update_all-value :
      (fs : List (T → T)) (d : Versioned T) → (update_all fs d).value ≡ apply_all fs d.value
  unfolding update_data
  update_all-value [] d = refl
  update_all-value (f ∷ fs) d = update_all-value fs (update_data f d)

  update_all-version :
      (fs : List (T → T)) (d : Versioned T)
      → d.version < 2 ^ 32
      → (update_all fs d).version ≡ (d.version + length fs) % 2 ^ 32
  unfolding update_data
  update_all-version [] d h = omega arith
  update_all-version (f ∷ fs) d h =
      let e = update_all-version fs (update_data f d) (omega arith) in omega (arith, e)

  -- A reader that has the present version and comes back after `fs` updates, at least one and fewer
  -- than 2 ^ 32: it is given the data with all of them made, and at once reading again it is given
  -- nothing.
  pub read-updates :
      (fs : List (T → T)) (d : Versioned T)
      → d.version < 2 ^ 32
      → 0 < length fs
      → length fs < 2 ^ 32
      → let d' = update_all fs d in
        let (seen, given) = read_if_different d' d.version in
        (has_changed d' d.version ≡ true)
        × (given ≡ some (apply_all fs d.value))
        × (read_if_different d' seen ≡ (seen, none))
  unfolding has_changed read_if_different
  read-updates fs d h a b = ground (arith, update_all-value fs d, update_all-version fs d h)
