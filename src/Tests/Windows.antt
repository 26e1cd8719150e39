-- ===== src/Tests/Windows.antt =====
-- A run of the rate limit.
use ufcim_backend_proto.Prelude.{◌≡◌, [], ◌∷◌, List}
use ufcim_backend_proto.Limits.RateLimit.{RateLimitOptions, Bucket}
use ufcim_backend_proto.Limits.Windows.{
  Arrival, counter_at, answers, spec_answers, rate_limit-refines,
}

abbrev two_a_minute : RateLimitOptions
two_a_minute = record { max = 2; window_seconds = 60 }

abbrev arrivals : List Arrival
arrivals =
    record { at = 1000; key = 1 }
    ∷ record { at = 2000; key = 1 }
    ∷ record { at = 2500; key = 2 }
    ∷ record { at = 3000; key = 1 }
    ∷ record { at = 61000; key = 1 }
    ∷ []

abbrev table : List Bucket
table = record { key = 2; count = 2; window_start = 500 } ∷ []

rate_limit-refines_example :
    answers two_a_minute arrivals table
    ≡ spec_answers two_a_minute arrivals (λ key. counter_at key table)
rate_limit-refines_example = rate_limit-refines two_a_minute arrivals table
