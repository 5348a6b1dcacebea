-- ===== src/PodIps/Addresses/Pool.antt =====
-- The pool that fixedPodAddresses returns.
use clowk_voodu.Base.{
  ℕ, zero, suc, ◌+◌, ◌-◌, ◌*◌, ◌/◌, ◌^◌, ◌≤◌, ◌<◌, ◌≡◌, sym, ap, ◌∙◌, inl, inr, Bool, not, ◌&&◌,
  ◌||◌, Option, some, List, [], ◌∷◌, ltb, leb, ◌==◌, Bool-cases, arith, dec_lt,
}
use native.Mathlib.Nat.{
  div-eq_of_lt-le, div-lt_iff_lt-mul, le-div_iff_mul-le, mul-le-mul_right, mul_assoc, pow-suc,
  one-le-pow, add-mul, mul-div_cancel,
}
use clowk_voodu.PodIps.Addresses.{
  Addr, v4, Prefix, prefix_from, block_size, block_contains, prefix_contains, is_addr, collect,
  or_first, some_pool, block_addresses, pool_of, fixed_pod_addresses, contains,
}

module _ (in_subnet skipped : ℕ → Bool) (top : ℕ) where
  -- The loop collects what is not skipped below the last address.
  contains-collect :
      (fuel a i : ℕ)
      → ((j : ℕ) → a ≤ j → in_subnet j ≡ ltb j top)
      → top ≤ a + fuel
      → contains i (collect in_subnet skipped fuel a)
        ≡ (leb a i && (ltb (i + 1) top && not (skipped i)))
  unfolding collect
  contains-collect zero a i inside enough = ground arith
  contains-collect (suc fuel) a i inside enough =
      let rest = contains-collect fuel (a + 1) i (λ j l. inside j (omega arith)) (omega arith) in
      let here = inside (a + 1) (omega arith) in
      elim (Bool-cases (ltb (a + 1) top)) [
        | inr e ↦ rw (here, e) (ground (arith, e))
        | inl e ↦ elim (Bool-cases (skipped a)) [
          | inl s ↦ rw (here, e, s, rest) (ground (arith, ap skipped, e, s))
          | inr s ↦ rw (here, e, s, rest) (ground (arith, ap skipped, e, s))
        ]
      ]

two_pow_add : (i j : ℕ) → 2 ^ i * 2 ^ j ≡ 2 ^ (i + j)
two_pow_add i zero = ground arith
two_pow_add i (suc j) =
    let shift : suc (i + j) ≡ i + suc j = omega arith in
    rw (pow-suc 2 j, sym (mul_assoc (2 ^ i) (2 ^ j) 2), two_pow_add i j)
      (sym (pow-suc 2 (i + j)) ∙ ap (λ k. 2 ^ k) shift)

module _ (a n m : ℕ) (positive : 0 < n) (valid : a < m * n) where
  -- The block of n addresses that holds a ends within m blocks.
  block_end : a / n * n + n ≤ m * n
  block_end =
      let whole = div-lt_iff_lt-mul {k = n} {x = a} {y = m} positive in
      let more = mul-le-mul_right {m = a / n + 1} {n = m} n (omega (arith, whole.1 valid)) in
      omega (arith, more, add-mul (a / n) 1 n)

  inside_block :
      (j : ℕ)
      → a / n * n + 1 ≤ j
      → (ltb j (m * n) && (j / n == a / n * n / n)) ≡ ltb j (a / n * n + n)
  inside_block j l =
      let ends = block_end in
      rw (mul-div_cancel (a / n) {n = n} positive) (elim (dec_lt j (a / n * n + n)) [
        | yes e ↦
            let q =
              div-eq_of_lt-le {k = a / n} n {m = j} (omega arith)
                (omega (arith, e, add-mul (a / n) 1 n)) in
            ground (arith, e, q, ends)
        | no e ↦
            let more = le-div_iff_mul-le {k = n} {x = a / n + 1} {y = j} positive in
            let far = more.1 (omega (arith, e, add-mul (a / n) 1 n)) in ground (arith, e, far)
      ])

some_pool-eq : (xs pool : List ℕ) → some_pool xs ≡ some pool → xs ≡ pool
some_pool-eq [] pool e = cc
some_pool-eq (x ∷ xs) pool e = cc

module _ (a bits : ℕ) (valid : a < 2 ^ 32) (bits_valid : bits ≤ 32) where
  -- For an IPv4 subnet with a range for docker, the pool has exactly the addresses of the subnet
  -- except its first and its last, the gateway (the second one, where none is given), and the range.
  pub fixed_pod_addresses-exact :
      (range : Prefix) (gateway : Option Addr) (pool : List ℕ) (i : ℕ)
      → fixed_pod_addresses (record {
        subnet = some (prefix_from (v4 a) bits);
        ip_range = some range;
        gateway = gateway;
      })
        ≡ some pool
      → contains i pool ≡ (
          ltb (a / block_size bits * block_size bits) i
          && (ltb (i + 1) (a / block_size bits * block_size bits + block_size bits)
              && not (
                  is_addr i (or_first gateway (a / block_size bits * block_size bits))
                  || prefix_contains (some range) i)))
  unfolding fixed_pod_addresses pool_of block_addresses
  fixed_pod_addresses-exact range gateway pool i e = rw (sym (some_pool-eq _ pool e)) (
      contains-collect (block_contains base bits)
        (λ i. is_addr i (or_first gateway base) || prefix_contains (some range) i)
        (base + block_size bits) (block_size bits) (base + 1) i inside (omega arith)
      ∙ ap (λ b. b && rest) first)
    where
      base : ℕ
      base = a / block_size bits * block_size bits

      rest : Bool
      rest =
          ltb (i + 1) (base + block_size bits)
          && not (is_addr i (or_first gateway base) || prefix_contains (some range) i)

      first : leb (base + 1) i ≡ ltb base i
      first = ground arith

      whole : 2 ^ bits * 2 ^ (32 - bits) ≡ 2 ^ 32
      whole =
          let all : bits + (32 - bits) ≡ 32 = omega arith in
          two_pow_add bits (32 - bits) ∙ ap (λ k. 2 ^ k) all

      inside : (j : ℕ) → base + 1 ≤ j → block_contains base bits j ≡ ltb j (base + block_size bits)
      inside j l = rw (sym whole) (
          inside_block a (block_size bits) (2 ^ bits) (one-le-pow (32 - bits) 2 (omega arith))
            (omega (arith, whole, valid)) j l)
