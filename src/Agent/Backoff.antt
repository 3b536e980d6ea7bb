-- ===== src/Agent/Backoff.antt =====
-- The reconnect delays of internal/agent/agent.go and internal/dependencycapture/uploader.go, which
-- have the same code under two names. A duration is an `int64` of nanoseconds, and doubling wraps.
use mockingo_agent.Base.{
  ℕ, ◌+◌, ◌*◌, ◌/◌, ◌^◌, ◌≤◌, ◌<◌, min, ℤ, pos, negsuc, lt_int, double64, add64, half_int,
  if◌then◌else◌, ◌≡◌, arith,
}

abbrev pub second : ℕ
second = 10 ^ 9

-- initialDelay := ...; if initialDelay <= 0 { initialDelay = time.Second }
abbrev pub initial_delay : ℤ → ℤ
initial_delay configured = if lt_int (pos 0) configured then configured else pos second

-- maxDelay := ...; if maxDelay < initialDelay { maxDelay = 30 * time.Second }
abbrev pub max_delay : ℤ → ℤ → ℤ
max_delay initial configured = if lt_int configured initial then pos (30 * second) else configured

unfoldable pub next_delay_max : ℤ → ℤ → ℤ
next_delay_max current maximum =
    let next = double64 current in if lt_int maximum next then maximum else next

-- waitBackoff and waitCaptureBackoff: the duration of the timer, from what rand.Int63n answers. That
-- function panics if its argument is below 1, which it is for a delay below -1 only.
unfoldable pub backoff_wait : (ℤ → ℤ) → ℤ → ℤ
backoff_wait random base = add64 base (random (add64 (half_int base) (pos 1)))

-- A delay between the first and the longest.
abbrev pub Within : ℕ → ℕ → ℤ → Type 0
Within lo hi (pos n) = (lo ≤ n) × (n ≤ hi)
Within lo hi (negsuc n) = ⊥

-- The next delay stays between the first and the longest, if doubling the longest does not wrap.
pub next_delay_max-Within :
    (lo hi : ℕ) (d : ℤ) → hi < 2 ^ 62 → Within lo hi d → Within lo hi (next_delay_max d (pos hi))
unfolding next_delay_max
next_delay_max-Within lo hi (pos n) small w = ground arith
next_delay_max-Within lo hi (negsuc n) small w = absurd w

pub next_delay_max-pos :
    (n hi : ℕ) → hi < 2 ^ 62 → n ≤ hi → next_delay_max (pos n) (pos hi) ≡ pos (min (n * 2) hi)
unfolding next_delay_max
next_delay_max-pos n hi small le = ground arith

-- What rand.Int63n answers to a positive argument.
abbrev pub IsInt63n : (ℤ → ℤ) → Type 0
IsInt63n random = (n : ℕ) → 0 < n → (k : ℕ) × (random (pos n) ≡ pos k) × (k < n)

-- A wait for a delay between two bounds and for half as long again at most.
abbrev pub IsWait : ℕ → ℕ → ℤ → Type 0
IsWait lo hi w = (d k : ℕ) × (lo ≤ d) × (d ≤ hi) × (k ≤ d / 2) × (w ≡ pos (d + k))

pub backoff_wait-IsWait :
    (random : ℤ → ℤ) (lo hi : ℕ) (d : ℤ)
    → IsInt63n random
    → hi < 2 ^ 62
    → Within lo hi d
    → IsWait lo hi (backoff_wait random d)
unfolding backoff_wait
backoff_wait-IsWait random lo hi (pos d) law small w =
    let (k, e, below) = law (d / 2 + 1) (omega arith) in
    (d, k, w.0, w.1, omega arith, rw (halved d (omega arith), e) (summed d k (omega arith)))
  where
    halved : (d : ℕ) → d < 2 ^ 62 → add64 (half_int (pos d)) (pos 1) ≡ pos (d / 2 + 1)
    halved d small = ground arith

    summed : (d k : ℕ) → d + k < 2 ^ 63 → add64 (pos d) (pos k) ≡ pos (d + k)
    summed d k small = ground arith
backoff_wait-IsWait random lo hi (negsuc d) law small w = absurd w
