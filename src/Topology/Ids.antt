-- ===== src/Topology/Ids.antt =====
-- source/processor_topology.cpp: a processor's thread, core and package against its APIC id.
use crunch_concurrency.Base.{
  ℕ, zero, suc, ◌+◌, ◌*◌, ◌/◌, ◌%◌, ◌^◌, ◌≡◌, sym, subst, ap, ◌∙◌, arith, ◌<◌,
}
use native.Mathlib.Nat.{
  div-add-mod, div-add-mod', pow-suc, mul_assoc, mul_comm, mul-add-mod_self_left, one-le-pow,
  mod-lt, div-lt_iff_lt-mul,
}
use crunch_concurrency.Topology.{processor_of}

two_pow-add : (a b : ℕ) → 2 ^ (a + b) ≡ 2 ^ a * 2 ^ b
two_pow-add a zero =
    let sum : a + 0 ≡ a = omega arith in
    let one : 2 ^ a * 1 ≡ 2 ^ a = omega arith in ap (λ k. 2 ^ k) sum ∙ sym one
two_pow-add a (suc b) =
    let sum : a + suc b ≡ suc (a + b) = omega arith in
    ap (λ k. 2 ^ k) sum
    ∙ pow-suc 2 (a + b)
    ∙ ap (λ k. k * 2) (two_pow-add a b)
    ∙ mul_assoc (2 ^ a) (2 ^ b) 2
    ∙ ap (λ k. 2 ^ a * k) (sym (pow-suc 2 b))

two_pow-pos : (a : ℕ) → 0 < 2 ^ a
two_pow-pos a = one-le-pow a 2 (omega arith)

-- The remainder of a division by a greater power of two keeps the lowest bits.
low_bits : (s d n : ℕ) → n % 2 ^ (s + d) % 2 ^ s ≡ n % 2 ^ s
low_bits s d n =
    let r = n % 2 ^ (s + d) in
    let q = n / 2 ^ (s + d) in
    sym (mul-add-mod_self_left (2 ^ s) (2 ^ d * q) r)
    ∙ ap (λ k. (k + r) % 2 ^ s)
        (sym (mul_assoc (2 ^ s) (2 ^ d) q) ∙ ap (λ k. k * q) (sym (two_pow-add s d)))
    ∙ ap (λ k. k % 2 ^ s) (div-add-mod n (2 ^ (s + d)))

-- The thread, the core and the package of a processor make its APIC id again, and the thread is below
-- `2 ^ s`.
pub processor_of-apic :
    (s d apic i : ℕ)
    → let p = processor_of s (s + d) apic i in
      (p.package_id * 2 ^ (s + d) + (p.core_id * 2 ^ s + p.thread_id) ≡ apic)
      × (p.thread_id < 2 ^ s)
      × (p.core_id < 2 ^ d)
unfolding processor_of
processor_of-apic s d apic i =
    let r = apic % 2 ^ (s + d) in
    let swap : 2 ^ (s + d) ≡ 2 ^ d * 2 ^ s = two_pow-add s d ∙ mul_comm (2 ^ s) (2 ^ d) in
    let (to, from) = div-lt_iff_lt-mul {k = 2 ^ s} {x = r} {y = 2 ^ d} (two_pow-pos s) in
    (
      ap (λ k. apic / 2 ^ (s + d) * 2 ^ (s + d) + (r / 2 ^ s * 2 ^ s + k)) (sym (low_bits s d apic))
          ∙ ap (λ k. apic / 2 ^ (s + d) * 2 ^ (s + d) + k) (div-add-mod' r (2 ^ s))
          ∙ div-add-mod' apic (2 ^ (s + d)),
      mod-lt apic (two_pow-pos s),
      from (subst (λ k. r < k) swap (mod-lt apic (two_pow-pos (s + d)))),
    )
