-- ===== src/CompilerPool/Cache.antt =====
-- The cache of src/runtime/compiler-pool.ts: what its loop keeps, and that it fits its quotas.
use kiro_fabric.Prelude.{
  same_text, ℕ, ◌+◌, ◌-◌, ◌≤◌, ◌≡◌, inl, inr, ◌||◌, ltb, List, [], ◌∷◌, ◌++◌, Option, none, some,
  length, Text, arith, Bool-cases, if_cases, option_cases,
}
use kiro_fabric.CompilerPool.{
  CachedCompilation, Pool, TypeCheckResult, cached, uncached, trim, forget, add_cached, remember,
  length_of, max_cache_entries, max_cache_chars,
}

unfoldable pub sum_chars : List CachedCompilation → ℕ
sum_chars [] = 0
sum_chars (c ∷ cs) = c.chars + sum_chars cs

pub sum_chars-append :
    (cs ds : List CachedCompilation) → sum_chars (cs ++ ds) ≡ sum_chars cs + sum_chars ds
unfolding sum_chars
sum_chars-append [] ds = omega arith
sum_chars-append (c ∷ cs) ds = omega (arith, sum_chars-append cs ds)

-- The cache keeps its quotas and its count.
pub record Fits (cs : List CachedCompilation) (chars : ℕ) : Type 0 where
  pub few : length cs ≤ max_cache_entries
  pub counted : chars ≡ sum_chars cs
  pub within : chars ≤ max_cache_chars

pub uncached_counts :
    (key : Text) (cs : List CachedCompilation) (c : CachedCompilation)
    → cached key cs ≡ some c
    → (sum_chars cs ≡ c.chars + sum_chars (uncached key cs))
      × (length cs ≡ length (uncached key cs) + 1)
unfolding cached uncached sum_chars
uncached_counts key [] c h = absurd (ground (arith, h))
uncached_counts key (x ∷ cs) c h = elim (Bool-cases (same_text key x.key)) [
  | inl same ↦ let at : x ≡ c = ground (arith, h, same) in ground (arith, same, at)
  | inr other ↦ ground (arith, other, uncached_counts key cs c (ground (arith, h, other)))
]

trim-Fits :
    (cs : List CachedCompilation) (chars : ℕ)
    → chars ≡ sum_chars cs
    → Fits (trim cs chars).0 (trim cs chars).1
unfolding trim sum_chars
trim-Fits [] chars h = record { few = omega arith; counted = h; within = omega (arith, h) }
trim-Fits (c ∷ cs) chars h =
    if_cases (λ (x : List CachedCompilation × ℕ). Fits x.0 x.1)
      (ltb max_cache_entries (length (c ∷ cs)) || ltb max_cache_chars chars)
      (λ _. trim-Fits cs (chars - c.chars) (omega (arith, h)))
      (λ full. record { few = ground (arith, full); counted = h; within = ground (arith, full) })

forget_counts :
    (key : Text) (cs : List CachedCompilation) (chars : ℕ)
    → chars ≡ sum_chars cs
    → (forget key cs chars).1 ≡ sum_chars (forget key cs chars).0
unfolding forget
forget_counts key cs chars h =
    option_cases (λ (x : List CachedCompilation × ℕ). x.1 ≡ sum_chars x.0) (cached key cs) (λ _. h)
      (λ c at. omega (arith, h, (uncached_counts key cs c at).0))

pub add_cached-Fits :
    (c : CachedCompilation) (p : Pool)
    → Fits p.cache p.cached_chars
    → Fits (add_cached c p).cache (add_cached c p).cached_chars
unfolding add_cached sum_chars
add_cached-Fits c p h =
    let kept = forget c.key p.cache p.cached_chars in
    trim-Fits (kept.0 ++ c ∷ []) (kept.1 + c.chars) (
      omega (
        arith,
        forget_counts c.key p.cache p.cached_chars h.counted,
        sum_chars-append kept.0 (c ∷ []),
      ))

pub remember-Fits :
    (key : Option Text) (r : TypeCheckResult) (p : Pool)
    → Fits p.cache p.cached_chars
    → Fits (remember key r p).cache (remember key r p).cached_chars
unfolding remember
remember-Fits none r p h = h
remember-Fits (some key) r p h =
    option_cases Kept r.javascript (λ _. h)
      (λ javascript _.
        if_cases Kept
          (ltb 0 (length r.errors)
            || ltb max_cache_chars (length key + length javascript + length_of r.source_map))
          (λ _. h) (λ _. add_cached-Fits _ p h))
  where
    Kept : Pool → Type 0
    Kept q = Fits q.cache q.cached_chars
