-- ===== src/Capture/Proxy/Relayed.antt =====
-- internal/dependencycapture/proxy.go: the loop that copies the upstream body to the client.
use mockingo_agent.Base.{
  ℕ, zero, suc, Bool, true, false, ◌&&◌, ◌||◌, not, Option, none, some, List, [], ◌∷◌, ◌++◌, map,
  Bytes, length, take, take-le, is_empty, ltb, ◌==◌, if◌then◌else◌, ◌≡◌, refl, arith, append-nil,
  append_assoc, Bool-cases, inl, inr, ◌⊎◌, All,
}
use mockingo_agent.Capture.Preview.{Preview, observe, all_bytes}
use mockingo_agent.Capture.Preview.Stream.{Tracks, observe-Tracks}
use mockingo_agent.Capture.Proxy.{Relay, relay_body}

abbrev pub chunks_of : List Relay → List Bytes
chunks_of = map (λ (r : Relay). r.chunk)

-- The client got the whole of what one read gave.
abbrev pub IsWritten : Relay → Type 0
IsWritten r = (r.chunk ≡ []) ⊎ ((r.write_failed ≡ false) × (r.written ≡ length r.chunk))

-- The upstream body ended with io.EOF, not with another error, and the client got every read of it.
abbrev pub IsWhole : Bool → List Relay → Type 0
IsWhole ends rs = (ends ≡ true) × All IsWritten rs

-- What the loop leaves: if it ran to its end, every byte that was read has been written and seen;
-- it returned early exactly if the body did not come through whole.
abbrev pub Relayed : Bool → List Relay → Bytes × Option Preview → Bytes → Type 0
Relayed ends rs (out, none) whole = IsWhole ends rs → ⊥
Relayed ends rs (out, some w) whole = IsWhole ends rs × (out ≡ whole) × Tracks w whole

seen-Tracks :
    (w : Preview) (out chunk : Bytes) → Tracks w out → Tracks (observe w chunk) (out ++ chunk)
seen-Tracks w out chunk t = observe-Tracks w.limit w.total w.capture w.preview out chunk t

next-Tracks :
    (w : Preview) (out chunk : Bytes) (written : ℕ)
    → Tracks w out
    → take written chunk ≡ chunk
    → Tracks (if ltb 0 written && not (is_empty chunk) then observe w chunk else w) (out ++ chunk)
next-Tracks w out [] written t e = elim (Bool-cases (ltb 0 written)) [
  | inl a ↦ rw (append-nil out, a) t
  | inr a ↦ rw (append-nil out, a) t
]
next-Tracks w out (c ∷ cs) zero t e = cc
next-Tracks w out (c ∷ cs) (suc n) t e =
    let some_written : ltb 0 (suc n) ≡ true = ground arith in
    rw some_written (seen-Tracks w out (c ∷ cs) t)

-- Whether the handler returns after a read and its write.
abbrev stops : Relay → Bool
stops r = not (is_empty r.chunk) && (r.write_failed || not (r.written == length r.chunk))

all_written :
    (chunk : Bytes) (written : ℕ) (failed : Bool)
    → (not (is_empty chunk) && (failed || not (written == length chunk))) ≡ false
    → take written chunk ≡ chunk
all_written [] written failed h = take-le written [] (omega arith)
all_written (c ∷ cs) written failed h = take-le written (c ∷ cs) (ground arith)

IsWritten-stops : (r : Relay) → IsWritten r → stops r ≡ false
IsWritten-stops r (inl e) = rw e refl
IsWritten-stops r (inr (e, n)) = rw (e, n) (ground arith)

stops-IsWritten :
    (chunk : Bytes) (written : ℕ) (failed : Bool)
    → (not (is_empty chunk) && (failed || not (written == length chunk))) ≡ false
    → (chunk ≡ []) ⊎ ((failed ≡ false) × (written ≡ length chunk))
stops-IsWritten [] written failed h = inl refl
stops-IsWritten (c ∷ cs) written failed h = inr (ground arith)

-- A read that was written whole before the others.
Relayed-read :
    (ends : Bool) (r : Relay) (rs : List Relay) (o : Bytes × Option Preview) (whole : Bytes)
    → IsWritten r
    → Relayed ends rs o whole
    → Relayed ends (r ∷ rs) o whole
Relayed-read ends r rs (out, none) whole w h = λ g. h (g.0, g.1.1)
Relayed-read ends r rs (out, some v) whole w ((e, ws), o, t) = ((e, (w, ws)), o, t)

pub relay_body-Relayed :
    (ends : Bool) (rs : List Relay) (w : Preview) (out : Bytes)
    → Tracks w out
    → Relayed ends rs (relay_body ends rs w out) (out ++ all_bytes (chunks_of rs))
unfolding relay_body
relay_body-Relayed true [] w out t = rw (append-nil out) ((refl, tt), refl, t)
relay_body-Relayed false [] w out t = λ g. cc
relay_body-Relayed ends (r ∷ rs) w out t = elim (Bool-cases (stops r)) [
  | inl stop ↦ rw stop (λ g. stopped stop (IsWritten-stops r g.1.0))
  | inr go ↦
      let e = all_written r.chunk r.written r.write_failed go in
      rw (go, e, ← append_assoc out r.chunk (all_bytes (chunks_of rs)))
        (Relayed-read ends r rs _ _ (stops-IsWritten r.chunk r.written r.write_failed go)
          (relay_body-Relayed ends rs _ (out ++ r.chunk) (next-Tracks w out r.chunk r.written t e)))
]
  where
    stopped : {b : Bool} → b ≡ true → b ≡ false → ⊥
    stopped h g = cc
