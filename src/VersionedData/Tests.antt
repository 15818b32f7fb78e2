-- ===== src/VersionedData/Tests.antt =====
-- A number that is updated twice, across the end of the versions.
use crunch_concurrency.Base.{ℕ, ◌+◌, ◌*◌, ◌-◌, ◌^◌, ◌≡◌, true, none, some, List, [], ◌∷◌, arith}
use crunch_concurrency.VersionedData.{
  Versioned, has_changed, read_if_different, update_all, apply_all, read-updates,
}

abbrev seven : Versioned ℕ
seven = record { version = 2 ^ 32 - 1; value = 7 }

abbrev two_updates : List (ℕ → ℕ)
two_updates = (λ n. n + 1) ∷ (λ n. n * 2) ∷ []

read-updates_example :
    let d = update_all two_updates seven in
    let (seen, given) = read_if_different d seven.version in
    (has_changed d seven.version ≡ true)
    × (given ≡ some (apply_all two_updates seven.value))
    × (read_if_different d seen ≡ (seen, none))
read-updates_example = read-updates two_updates seven (omega arith) (omega arith) (omega arith)
