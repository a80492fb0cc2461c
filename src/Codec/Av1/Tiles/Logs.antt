-- ===== src/Codec/Av1/Tiles/Logs.antt =====
-- What the two logarithms of src/codec/av1_obu.cc compute.
use qualcomm_iris_vaapi.Base.{
  ℕ, zero, suc, ◌+◌, ◌-◌, ◌*◌, ◌/◌, ◌^◌, ◌≤◌, ◌<◌, ◌≡◌, sym, ap, inl, inr, arith, ltb, ◌==◌, ==_iff,
  Bool-cases, ltb→lt,
}
use native.Mathlib.Decide.{dec_lt}
use native.Mathlib.Nat.{pow-suc, mod-eq_of_lt}
use qualcomm_iris_vaapi.Codec.Av1.Sequence.{ceil_log2_fuel, ceil_log2}
use qualcomm_iris_vaapi.Codec.Av1.Tiles.{tile_log2_fuel, tile_log2}

-- `k` is the smallest number of doublings that take `unit` to `target`.
pub record Least (unit target k : ℕ) : Type 0 where
  pub enough : target ≤ unit * 2 ^ k
  pub tight : (j : ℕ) → j < k → unit * 2 ^ j < target

tight_suc :
    (unit target k : ℕ)
    → ((j : ℕ) → j < k → unit * 2 ^ j < target)
    → unit * 2 ^ k < target
    → (j : ℕ) → j < k + 1
    → unit * 2 ^ j < target
tight_suc unit target k below h j hj = elim (dec_lt j k) [
  | yes less ↦ below j less
  | no more ↦ let same : k ≡ j = omega arith in rw (sym same) h
]

tile_log2_fuel-Least :
    (f k unit target : ℕ)
    → target ≤ 2 ^ 31
    → unit * 2 ^ k < 2 ^ 32
    → target ≤ unit * 2 ^ (k + f)
    → ((j : ℕ) → j < k → unit * 2 ^ j < target)
    → Least unit target (tile_log2_fuel f k unit target)
unfolding tile_log2_fuel
tile_log2_fuel-Least zero k unit target ht hu enough tight = record {
  enough = let same : k + 0 ≡ k = omega arith in rw same at enough;
  tight = tight;
}
tile_log2_fuel-Least (suc f) k unit target ht hu enough tight =
    elim (Bool-cases (ltb (unit * 2 ^ k) target)) [
      | inl more ↦
          let less : unit * 2 ^ k < target = ltb→lt _ _ more in
          let doubled : unit * 2 ^ (k + 1) ≡ unit * 2 ^ k * 2 =
            let s : k + 1 ≡ suc k = omega arith in
            rw s (omega (arith, ap (λ (t : ℕ). unit * t) (pow-suc 2 k))) in
          let moved : k + suc f ≡ k + 1 + f = omega arith in
          rw (mod-eq_of_lt hu, more)
            (tile_log2_fuel-Least f (k + 1) unit target ht (omega (arith, doubled))
              (rw moved at enough) (tight_suc unit target k tight less))
      | inr done ↦
          rw (mod-eq_of_lt hu, done) (record { enough = ground (arith, done); tight = tight })
    ]

-- For a positive unit and a target of at most 2 ^ 31, `tile_log2` is the smallest number of doublings of the unit that reach the target: its 32 rounds are enough, and no shift wraps.
pub tile_log2-Least :
    (unit target : ℕ)
    → 0 < unit
    → unit < 2 ^ 32
    → target ≤ 2 ^ 31
    → Least unit target (tile_log2 unit target)
unfolding tile_log2
tile_log2-Least unit target hu hw ht =
    tile_log2_fuel-Least 32 0 unit target ht (omega arith) (omega arith)
      (λ j h. absurd (omega arith))

record Width (n k : ℕ) : Type 0 where
  below : n < 2 ^ k
  above : (j : ℕ) → j < k → 2 ^ j ≤ n

ceil_log2_fuel-Width : (f n : ℕ) → n < 2 ^ f → Width n (ceil_log2_fuel f n)
unfolding ceil_log2_fuel
ceil_log2_fuel-Width zero n h = record { below = h; above = λ j hj. absurd (omega arith) }
ceil_log2_fuel-Width (suc f) n h = elim (Bool-cases (n == 0)) [
  | inl none_left ↦
      let z = (==_iff n 0).0 none_left in
      rw none_left (record { below = omega arith; above = λ j hj. absurd (omega arith) })
  | inr more ↦
      let rest = ceil_log2_fuel-Width f (n / 2) (omega (arith, pow-suc 2 f)) in
      let k = ceil_log2_fuel f (n / 2) in
      rw more (record {
        below = omega (arith, rest.below, pow-suc 2 k);
        above = λ j hj. step n k j (ground (arith, more)) rest.above hj;
      })
]
  where
    step : (n k j : ℕ) → 0 < n → ((j : ℕ) → j < k → 2 ^ j ≤ n / 2) → j < suc k → 2 ^ j ≤ n
    step n k zero hn above hj = hn
    step n k (suc j) hn above hj = omega (arith, above j (omega arith), pow-suc 2 j)

-- For a positive value of at most 2 ^ 32, `ceil_log2` is the smallest exponent of a power of two that reaches the value: its 32 rounds are enough.
pub ceil_log2-Least : (value : ℕ) → 0 < value → value ≤ 2 ^ 32 → Least 1 value (ceil_log2 value)
unfolding ceil_log2
ceil_log2-Least value hv h = elim (Bool-cases (ltb value 2)) [
  | inl small ↦
      rw small (record { enough = ground (arith, small); tight = λ j hj. absurd (omega arith) })
  | inr large ↦
      let w = ceil_log2_fuel-Width 32 (value - 1) (omega arith) in
      rw large
        (record { enough = omega (arith, w.below); tight = λ j hj. omega (arith, w.above j hj) })
]

Least-unique : (unit target k l : ℕ) → Least unit target k → Least unit target l → k ≤ l
Least-unique unit target k l p q = elim (dec_lt l k) [
  | yes less ↦ absurd (omega (arith, p.tight l less, q.enough))
  | no more ↦ omega arith
]

-- For a positive value of at most 2 ^ 31, `tile_log2` of one and the value is `ceil_log2` of the value.
pub tile_log2-ceil_log2 :
    (value : ℕ) → 0 < value → value ≤ 2 ^ 31 → tile_log2 1 value ≡ ceil_log2 value
tile_log2-ceil_log2 value hv h =
    let p = tile_log2-Least 1 value (omega arith) (omega arith) h in
    let q = ceil_log2-Least value hv (omega arith) in
    omega (arith, Least-unique 1 value _ _ p q, Least-unique 1 value _ _ q p)
