-- ===== src/Runtime/Usages.antt =====
-- The token accounting of a run (crates/core/src/runtime.rs).
use mathlib.Core.List.{Memᴰ}
use wiki_coding.Prelude.{
  ℕ, ◌≡◌, refl, ap, ◌∙◌, ◌+◌, ◌≤◌, min, Option, some, none, List, [], ◌∷◌, ◌++◌, map, arith,
}
use wiki_coding.Protocol.Event.{Usage}
use wiki_coding.Runtime.{merge_usage, add_optional, u64_max}

-- All usages merged in turn, as the code does.
unfoldable pub total : Option Usage → List Usage → Option Usage
total current [] = current
total current (u ∷ us) = total (some (merge_usage current u)) us

pub total-append :
    (current : Option Usage) (us vs : List Usage)
    → total current (us ++ vs) ≡ total (total current us) vs
unfolding total
total-append current [] vs = refl
total-append current (u ∷ us) vs = total-append (some (merge_usage current u)) us vs

-- The numbers that are reported, and what they come to: nothing where none is, and their sum as a `u64`
-- that stops at its greatest value where some are.
abbrev pub numbers : List (Option ℕ) → List ℕ
numbers [] = []
numbers (none ∷ os) = numbers os
numbers (some n ∷ os) = n ∷ numbers os

abbrev pub sum : List ℕ → ℕ
sum [] = 0
sum (n ∷ ns) = n + sum ns

abbrev pub saturated_sum : List ℕ → Option ℕ
saturated_sum [] = none
saturated_sum (n ∷ ns) = some (min (sum (n ∷ ns)) u64_max)

abbrev pub tally : List (Option ℕ) → Option ℕ
tally os = saturated_sum (numbers os)

-- The usages of a turn as one: there is none where there are no usages, and each count is that of the
-- events which report it.
abbrev pub tallied : List Usage → Option Usage
tallied [] = none
tallied (u ∷ us) = some (record {
  input_tokens = tally (map (λ v. v.input_tokens) (u ∷ us));
  output_tokens = tally (map (λ v. v.output_tokens) (u ∷ us));
  total_tokens = tally (map (λ v. v.total_tokens) (u ∷ us));
})

-- Every number of the usages is a `u64`.
abbrev pub Counts : List (Option ℕ) → Type 0
Counts os = (n : ℕ) → Memᴰ n (numbers os) → n ≤ u64_max

pub record Bounded (us : List Usage) : Type 0 where
  pub input : Counts (map (λ v. v.input_tokens) us)
  pub output : Counts (map (λ v. v.output_tokens) us)
  pub total : Counts (map (λ v. v.total_tokens) us)

unfoldable added : Option ℕ → List (Option ℕ) → Option ℕ
added a [] = a
added a (o ∷ os) = added (add_optional a o) os

added-some :
    (a : ℕ) (os : List (Option ℕ))
    → a ≤ u64_max
    → added (some a) os ≡ some (min (a + sum (numbers os)) u64_max)
unfolding added add_optional
added-some a [] fits = ap some (omega arith)
added-some a (none ∷ os) fits = added-some a os fits
added-some a (some n ∷ os) fits =
    added-some (min (a + n) u64_max) os (omega arith) ∙ ap some (omega arith)

added-none : (os : List (Option ℕ)) → Counts os → added none os ≡ tally os
unfolding added add_optional
added-none [] fits = refl
added-none (none ∷ os) fits = added-none os fits
added-none (some n ∷ os) fits = added-some n os (fits n (Memᴰ.head refl))

total-added :
    (v : Usage) (us : List Usage)
    → total (some v) us
      ≡ some (record {
        input_tokens = added v.input_tokens (map (λ v. v.input_tokens) us);
        output_tokens = added v.output_tokens (map (λ v. v.output_tokens) us);
        total_tokens = added v.total_tokens (map (λ v. v.total_tokens) us);
      })
unfolding total added merge_usage
total-added v [] = refl
total-added v (u ∷ us) = total-added (merge_usage (some v) u) us

pub total-tallied : (us : List Usage) → Bounded us → total none us ≡ tallied us
unfolding total merge_usage added add_optional
total-tallied [] fits = refl
total-tallied (u ∷ us) fits = total-added (merge_usage none u) us ∙ λ i. some (record {
  input_tokens = added-none (map (λ v. v.input_tokens) (u ∷ us)) fits.input i;
  output_tokens = added-none (map (λ v. v.output_tokens) (u ∷ us)) fits.output i;
  total_tokens = added-none (map (λ v. v.total_tokens) (u ∷ us)) fits.total i;
})
