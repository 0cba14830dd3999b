-- ===== src/Event/Backoff.antt =====
-- The pause before a reconnection: nextBackoff, stableConnection and the round of Subscribe, of
-- internal/event/docker_generator.go. A Duration is an int64.
use docker_coredns_sync.Prelude.{
  All, Bool, List, Option, [], arith, false, if◌then◌else◌, leb, ltb, nat_eq, none, some, text_eq,
  true, ℕ, ◌%◌, ◌*◌, ◌+◌, ◌-◌, ◌<◌, ◌^◌, ◌∷◌, ◌≤◌,
}
use docker_coredns_sync.GoText.Decimal.{ℤ, pos, negsuc, int_eq}
use docker_coredns_sync.Domain.Intent.{Time}

-- The int64 with the bits of n
unfoldable pub wrap : ℕ → ℤ
wrap n = let m = n % 2 ^ 64 in if ltb m (2 ^ 63) then pos m else negsuc (2 ^ 64 - 1 - m)

-- cur * 2; the number -(n + 1) has the bits of 2^64 - (n + 1).
unfoldable pub double : ℤ → ℤ
unfolding wrap
double (pos n) = wrap (n * 2)
double (negsuc n) = wrap ((2 ^ 64 - (n + 1)) * 2)

-- m > n
unfoldable pub exceeds : ℤ → ℤ → Bool
exceeds (pos m) (pos n) = ltb n m
exceeds (pos m) (negsuc n) = true
exceeds (negsuc m) (pos n) = false
exceeds (negsuc m) (negsuc n) = ltb m n

-- nextBackoff
unfoldable pub next_backoff : ℤ → ℤ → ℤ
unfolding double exceeds
next_backoff cur max = let next = double cur in if exceeds next max then max else next

-- stableConnection: none is the zero time
unfoldable pub stable_connection : Option Time → Time → ℕ → Bool
stable_connection none now min_uptime = false
stable_connection (some connected_at) now min_uptime = leb (connected_at + min_uptime) now

-- One round of Subscribe, as far as the backoff goes: the pause of this round, and the next backoff.
unfoldable pub subscribe_round : ℤ → ℤ → ℤ → Bool → ℤ × ℤ
unfolding next_backoff
subscribe_round initial max backoff stable =
    let pause = if stable then initial else backoff in (pause, next_backoff pause max)

-- The pauses of the rounds, by whether the connection before each was stable.
unfoldable pub pauses : ℤ → ℤ → ℤ → List Bool → List ℤ
unfolding subscribe_round
pauses initial max backoff [] = []
pauses initial max backoff (stable ∷ rounds) =
    let (pause, next) = subscribe_round initial max backoff stable in
    pause ∷ pauses initial max next rounds

-- A pause between the two bounds
abbrev pub Within : ℕ → ℕ → ℤ → Type 0
Within initial max (pos n) = (initial ≤ n) × (n ≤ max)
Within initial max (negsuc n) = ⊥

pub next_backoff-Within :
    (initial max : ℕ) (d : ℤ)
    → max < 2 ^ 62
    → Within initial max d
    → Within initial max (next_backoff d (pos max))
unfolding next_backoff double exceeds wrap
next_backoff-Within initial max (negsuc n) small h = absurd h
next_backoff-Within initial max (pos n) small h = ground arith

pauses_from :
    (initial max : ℕ) (d : ℤ) (rounds : List Bool)
    → initial ≤ max
    → max < 2 ^ 62
    → Within initial max d
    → All (Within initial max) (pauses (pos initial) (pos max) d rounds)
unfolding pauses subscribe_round
pauses_from initial max d [] le small h = tt
pauses_from initial max d (true ∷ rounds) le small h =
    let first : Within initial max (pos initial) = (omega arith, le) in
    (
      first,
      pauses_from initial max (next_backoff (pos initial) (pos max)) rounds le small
          (next_backoff-Within initial max (pos initial) small first),
    )
pauses_from initial max d (false ∷ rounds) le small h = (
  h,
  pauses_from initial max (next_backoff d (pos max)) rounds le small
      (next_backoff-Within initial max d small h),
)

-- If the initial pause is at most the maximum, and that is below 2^62 nanoseconds, then every pause
-- lies between the two, whichever connections were stable.
pub pauses-Within :
    (initial max : ℕ) (rounds : List Bool)
    → initial ≤ max
    → max < 2 ^ 62
    → All (Within initial max) (pauses (pos initial) (pos max) (pos initial) rounds)
pauses-Within initial max rounds le small =
    pauses_from initial max (pos initial) rounds le small (omega arith, le)
