-- ===== src/Limits/Windows.antt =====
-- middleware/rate-limit.ts: how many requests of one key pass in a window.
use ufcim_backend_proto.Prelude.{
  ℕ, ◌≡◌, refl, sym, ◌∙◌, ap, ◌+◌, Bool, true, false, Option, none, some, List, [], ◌∷◌, ◌++◌, ◌==◌,
  ==_refl, ==_iff, leb, find-All, All-intro, find-append_none, find-snoc_other, find-update_other,
  find-update_where, update_where, Bool-cases, Option-cases, inl, inr, if◌then◌else◌,
}
use ufcim_backend_proto.Limits.RateLimit.{
  RateLimitOptions, Bucket, seconds, has_expired, count_up, find_bucket, new_bucket, upsert,
  returned, rate_limit,
}

-- A request: its time and its key.
pub record Arrival : Type 0 where
  pub at : ℕ
  pub key : ℕ

-- The abstract counter of one key: nothing yet, or the start of the window and the count.
abbrev pub Counter : Type 0
Counter = Option (ℕ × ℕ)

abbrev shown : Option Bucket → Counter
shown none = none
shown (some b) = some (b.window_start, b.count)

abbrev pub counter_at : ℕ → List Bucket → Counter
counter_at key buckets = shown (find_bucket key buckets)

-- A request of the key opens a window, or is the next one in the window that is open.
abbrev pub tick : RateLimitOptions → ℕ → Counter → Counter
tick opts now none = some (now, 1)
tick opts now (some (start, n)) =
    if leb (seconds start + opts.window_seconds) (seconds now)
    then some (now, 1)
    else some (start, n + 1)

abbrev pub passes_counter : RateLimitOptions → Counter → Bool
passes_counter opts none = leb 1 opts.max
passes_counter opts (some (start, n)) = leb n opts.max

count_up-key : (opts : RateLimitOptions) (now : ℕ) (b : Bucket) → (count_up opts now b).key ≡ b.key
count_up-key opts now b = elim (Bool-cases (has_expired opts now b)) [
  | inl over ↦ rw over refl
  | inr within ↦ rw within refl
]

abbrev counter_of : Bucket → ℕ × ℕ
counter_of b = (b.window_start, b.count)

count_up-tick :
    (opts : RateLimitOptions) (now : ℕ) (b : Bucket)
    → some (counter_of (count_up opts now b)) ≡ tick opts now (some (counter_of b))
count_up-tick opts now b = elim (Bool-cases (has_expired opts now b)) [
  | inl over ↦ rw over refl
  | inr within ↦ rw within refl
]

find-key :
    (key : ℕ) (buckets : List Bucket) {b : Bucket}
    → find_bucket key buckets ≡ some b
    → b.key == key ≡ true
find-key key buckets h =
    (find-All (λ x. x.key ≡ x.key) (λ b. b.key == key) buckets
      (All-intro (λ x. x.key ≡ x.key) buckets (λ x. refl)) h).1

counter_at-found :
    (key : ℕ) (buckets : List Bucket) {b : Bucket}
    → find_bucket key buckets ≡ some b
    → counter_at key buckets ≡ some (counter_of b)
counter_at-found key buckets h = rw h refl

counter_at-upsert :
    (opts : RateLimitOptions) (now key : ℕ) (buckets : List Bucket)
    → counter_at key (upsert opts now key buckets) ≡ tick opts now (counter_at key buckets)
unfolding upsert
counter_at-upsert opts now key buckets = elim (Option-cases (find_bucket key buckets)) [
  | inl absent ↦
      let added : find_bucket key (buckets ++ new_bucket key now ∷ []) ≡ some (new_bucket key now) =
        find-append_none (λ b. b.key == key) buckets (new_bucket key now ∷ []) absent
        ∙ rw (==_refl key) refl in
      rw absent (counter_at-found key (buckets ++ new_bucket key now ∷ []) added)
  | inr (b, there) ↦
      let raised : find_bucket key (update_where (λ b. b.key == key) (count_up opts now) buckets)
          ≡ some (count_up opts now b) =
        find-update_where (λ b. b.key == key) (λ b. b.key == key) (count_up opts now)
          (λ x. ap (λ k. k == key) (count_up-key opts now x)) buckets there
          (find-key key buckets there) in
      rw there (
        counter_at-found key (update_where (λ b. b.key == key) (count_up opts now) buckets) raised
        ∙ count_up-tick opts now b)
]

counter_at-upsert_other :
    (opts : RateLimitOptions) (now key other : ℕ) (buckets : List Bucket)
    → key == other ≡ false
    → counter_at other (upsert opts now key buckets) ≡ counter_at other buckets
unfolding upsert
counter_at-upsert_other opts now key other buckets far =
    elim (Option-cases (find_bucket key buckets)) [
      | inl absent ↦ rw absent (
          ap (λ (o : Option Bucket). shown o)
            (find-snoc_other (λ b. b.key == other) buckets (new_bucket key now) far))
      | inr (b, there) ↦ rw there (
          ap (λ (o : Option Bucket). shown o)
            (find-update_other (λ (b : Bucket). b.key) (count_up opts now) (count_up-key opts now)
              other key buckets far))
    ]

-- The code's answers to requests that arrive one after the other.
abbrev pub answers : RateLimitOptions → List Arrival → List Bucket → List Bool
answers opts [] buckets = []
answers opts (a ∷ rest) buckets =
    (rate_limit opts a.at a.key buckets).0
    ∷ answers opts rest (rate_limit opts a.at a.key buckets).1

abbrev put_counter : ℕ → Counter → (ℕ → Counter) → ℕ → Counter
put_counter key t counters k = if key == k then t else counters k

-- The answers of counters that are kept apart, one for each key.
abbrev pub spec_answers : RateLimitOptions → List Arrival → (ℕ → Counter) → List Bool
spec_answers opts [] counters = []
spec_answers opts (a ∷ rest) counters =
    let t = tick opts a.at (counters a.key) in
    passes_counter opts t ∷ spec_answers opts rest (put_counter a.key t counters)

returned-passes :
    (opts : RateLimitOptions) (key : ℕ) (buckets : List Bucket)
    → leb (returned key buckets) opts.max ≡ passes_counter opts (counter_at key buckets)
unfolding returned
returned-passes opts key buckets = elim (Option-cases (find_bucket key buckets)) [
  | inl absent ↦ rw absent refl
  | inr (b, there) ↦ rw there refl
]

answers-refine :
    (opts : RateLimitOptions) (arrivals : List Arrival) (buckets : List Bucket)
    (counters : ℕ → Counter)
    → ((k : ℕ) → counters k ≡ counter_at k buckets)
    → answers opts arrivals buckets ≡ spec_answers opts arrivals counters
unfolding rate_limit
answers-refine opts [] buckets counters same = refl
answers-refine opts (a ∷ rest) buckets counters same =
    let t = tick opts a.at (counters a.key) in
    let after = upsert opts a.at a.key buckets in
    let now_there : t ≡ counter_at a.key after =
      ap (tick opts a.at) (same a.key) ∙ sym (counter_at-upsert opts a.at a.key buckets) in
    let first = returned-passes opts a.key after ∙ ap (passes_counter opts) (sym now_there) in
    let later = answers-refine opts rest after (put_counter a.key t counters) (λ k.
      elim (Bool-cases (a.key == k)) [
        | inl own ↦
            let is_k : a.key ≡ k = (==_iff a.key k).0 own in
            rw own (now_there ∙ ap (λ j. counter_at j after) is_k)
        | inr far ↦ rw far (same k ∙ sym (counter_at-upsert_other opts a.at a.key k buckets far))
      ]) in
    rw (first, later) refl

-- Requests of any keys at any times get the answers that a fixed-window counter for each key gives,
-- kept apart from the others: the first request of a key, or the first after its window has ended,
-- opens a window with the count 1, every other one counts up, refused ones too, and a request passes
-- when the count is at most the maximum.
pub rate_limit-refines :
    (opts : RateLimitOptions) (arrivals : List Arrival) (buckets : List Bucket)
    → answers opts arrivals buckets ≡ spec_answers opts arrivals (λ key. counter_at key buckets)
rate_limit-refines opts arrivals buckets =
    answers-refine opts arrivals buckets (λ key. counter_at key buckets) (λ k. refl)
