-- ===== src/Limits/RateLimit.antt =====
-- middleware/rate-limit.ts `rateLimit`: a counter for each key, in the table of buckets.
use ufcim_backend_proto.Prelude.{
  ℕ, ◌+◌, ◌/◌, Bool, Option, none, some, List, [], ◌∷◌, ◌==◌, leb, find, update_where,
  if◌then◌else◌, ◌++◌,
}

pub record RateLimitOptions : Type 0 where
  pub max : ℕ
  pub window_seconds : ℕ

-- `key` stands for the namespace with the address; the start is in milliseconds.
pub record Bucket : Type 0 where
  pub key : ℕ
  pub count : ℕ
  pub window_start : ℕ

-- `strftime('%s', …)`
abbrev pub seconds : ℕ → ℕ
seconds ms = ms / 1000

-- The window of the row ended: `now - start >= window`.
abbrev pub has_expired : RateLimitOptions → ℕ → Bucket → Bool
has_expired opts now b = leb (seconds b.window_start + opts.window_seconds) (seconds now)

abbrev pub count_up : RateLimitOptions → ℕ → Bucket → Bucket
count_up opts now b =
    if has_expired opts now b
    then record b { count = 1; window_start = now }
    else record b { count = b.count + 1 }

abbrev pub find_bucket : ℕ → List Bucket → Option Bucket
find_bucket key = find (λ b. b.key == key)

abbrev pub new_bucket : ℕ → ℕ → Bucket
new_bucket key now = record { key = key; count = 1; window_start = now }

-- `INSERT … ON CONFLICT(key) DO UPDATE`
abbrev pub upsert_on : RateLimitOptions → ℕ → ℕ → List Bucket → Option Bucket → List Bucket
upsert_on opts now key buckets none = buckets ++ new_bucket key now ∷ []
upsert_on opts now key buckets (some b) =
    update_where (λ b. b.key == key) (count_up opts now) buckets

unfoldable pub upsert : RateLimitOptions → ℕ → ℕ → List Bucket → List Bucket
upsert opts now key buckets = upsert_on opts now key buckets (find_bucket key buckets)

abbrev pub count_in : Option Bucket → ℕ
count_in none = 1
count_in (some b) = b.count

-- `RETURNING count`
unfoldable pub returned : ℕ → List Bucket → ℕ
returned key buckets = count_in (find_bucket key buckets)

-- Whether the request goes on, and the table after it; a refused one is counted too.
unfoldable pub rate_limit : RateLimitOptions → ℕ → ℕ → List Bucket → Bool × List Bucket
rate_limit opts now key buckets =
    let after = upsert opts now key buckets in (leb (returned key after) opts.max, after)
