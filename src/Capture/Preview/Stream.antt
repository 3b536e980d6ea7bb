-- ===== src/Capture/Preview/Stream.antt =====
-- The observers of internal/dependencycapture/capture.go against the stream that they have seen.
use mockingo_agent.Base.{
  ℕ, zero, suc, ◌-◌, ◌≤◌, min, Bool, true, false, List, [], ◌∷◌, ◌++◌, Bytes, length, length-append,
  length-take, take, take-le, leb, if◌then◌else◌, ◌≡◌, refl, arith, append-nil, append_assoc, ap,
  ap₂, sym, ◌∙◌, Bool-cases, inl, inr,
}
use mathlib.Core.Path.{fun_ext}
use mockingo_agent.Protocol.Message.{HeaderMap}
use mockingo_agent.Capture.Body.{Decoders, body_capture_allowed}
use mockingo_agent.Capture.Preview.{Preview, new_preview, observe, read, all_bytes, after_chunks}

take-zero : (n : ℕ) (xs : Bytes) → n ≡ 0 → take n xs ≡ []
take-zero zero xs e = refl
take-zero (suc n) xs e = absurd (omega arith)

take-append-full : (n : ℕ) (xs ys : Bytes) → n ≤ length xs → take n (xs ++ ys) ≡ take n xs
take-append-full zero xs ys h = refl
take-append-full (suc n) [] ys h = absurd (omega arith)
take-append-full (suc n) (x ∷ xs) ys h =
    ap (λ (t : Bytes). x ∷ t) (take-append-full n xs ys (omega arith))

take-append-room :
    (n : ℕ) (xs ys : Bytes) → length xs ≤ n → take n (xs ++ ys) ≡ xs ++ take (n - length xs) ys
take-append-room n [] ys h = ap (λ (m : ℕ). take m ys) (omega arith)
take-append-room zero (x ∷ xs) ys h = absurd (omega arith)
take-append-room (suc n) (x ∷ xs) ys h =
    ap (λ (t : Bytes). x ∷ t)
      (take-append-room n xs ys (omega arith) ∙ ap (λ (m : ℕ). xs ++ take m ys) (omega arith))

take-min : (n : ℕ) (xs : Bytes) → take (min n (length xs)) xs ≡ take n xs
take-min n xs = elim (Bool-cases (leb n (length xs))) [
  | inl small ↦ ap (λ (m : ℕ). take m xs) (ground (arith, small))
  | inr large ↦
      ap (λ (m : ℕ). take m xs) {y = length xs} (ground (arith, large))
      ∙ take-le (length xs) xs (omega arith)
      ∙ sym (take-le n xs (ground (arith, large)))
]

-- The beginning of the stream, if it is captured.
abbrev pub kept : Bool → ℕ → Bytes → Bytes
kept capture limit seen = if capture then take limit seen else []

-- What an observer knows of the bytes that went by.
pub record Tracks (p : Preview) (seen : Bytes) : Type 0 where
  pub preview : p.preview ≡ kept p.capture p.limit seen
  pub total : p.total ≡ length seen

-- One more chunk for a preview that captures.
grow :
    (limit : ℕ) (seen value p : Bytes)
    → p ≡ take limit seen
    → leb limit (length p) ≡ false
    → p ++ take (min (limit - length p) (length value)) value ≡ take limit (seen ++ value)
grow limit seen value p e room =
    let fits : length seen ≤ limit = ground (arith, room, ap length e, length-take limit seen) in
    let whole : p ≡ seen = e ∙ take-le limit seen fits in
    ap (λ (t : Bytes). p ++ t) (take-min (limit - length p) value)
    ∙ ap (λ (t : Bytes). t ++ take (limit - length t) value) whole
    ∙ sym (take-append-room limit seen value fits)

full :
    (limit : ℕ) (seen value p : Bytes)
    → p ≡ take limit seen
    → leb limit (length p) ≡ true
    → p ≡ take limit (seen ++ value)
full limit seen value p e filled =
    e
    ∙ sym (
        take-append-full limit seen value
          (ground (arith, filled, ap length e, length-take limit seen)))

pub observe-Tracks :
    (limit total : ℕ) (capture : Bool) (p seen value : Bytes)
    → Tracks (record { preview = p; limit = limit; total = total; capture = capture }) seen
    → Tracks
        (observe (record { preview = p; limit = limit; total = total; capture = capture }) value)
        (seen ++ value)
unfolding observe
observe-Tracks limit total false p seen value t = record {
  preview = t.preview;
  total = omega (arith, t.total, length-append seen value);
}
observe-Tracks limit total true p seen value t = elim (Bool-cases (leb limit (length p))) [
  | inl filled ↦ rw filled (record {
    preview = full limit seen value p t.preview filled;
    total = omega (arith, t.total, length-append seen value);
  })
  | inr room ↦ rw room (record {
    preview = grow limit seen value p t.preview room;
    total = omega (arith, t.total, length-append seen value);
  })
]

-- Both observers make the same step.
read-observe : (p : Preview) (value : Bytes) → read p value ≡ observe p value
unfolding read observe
read-observe p value = ground arith

after_chunks-Tracks :
    (p : Preview) (seen : Bytes) (chunks : List Bytes)
    → Tracks p seen
    → Tracks (after_chunks observe p chunks) (seen ++ all_bytes chunks)
after_chunks-Tracks p seen [] t = rw (append-nil seen) t
after_chunks-Tracks p seen (c ∷ cs) t = rw (← append_assoc seen c (all_bytes cs)) (
    after_chunks-Tracks (observe p c) (seen ++ c) cs
      (observe-Tracks p.limit p.total p.capture p.preview seen c t))

observe-settings :
    (p : Preview) (value : Bytes)
    → ((observe p value).limit ≡ p.limit) × ((observe p value).capture ≡ p.capture)
unfolding observe
observe-settings p value = ground arith

after_chunks-settings :
    (p : Preview) (chunks : List Bytes)
    → ((after_chunks observe p chunks).limit ≡ p.limit)
      × ((after_chunks observe p chunks).capture ≡ p.capture)
after_chunks-settings p [] = (refl, refl)
after_chunks-settings p (c ∷ cs) =
    let (a, b) = observe-settings p c in
    let (a', b') = after_chunks-settings (observe p c) cs in (a' ∙ a, b' ∙ b)

pub empty-kept : (limit : ℕ) (capture : Bool) → [] ≡ kept capture limit []
empty-kept zero true = refl
empty-kept (suc n) true = refl
empty-kept n false = refl

-- However a stream is divided into chunks, the observer of a response and that of a request have
-- both counted its bytes, and hold its beginning up to the limit if the headers allow the capture,
-- and nothing otherwise.
pub preview-stream :
    (dec : Decoders) (headers : HeaderMap) (limit : ℕ) (chunks : List Bytes)
    → let beginning = kept (body_capture_allowed dec headers) limit (all_bytes chunks) in
      let w = after_chunks observe (new_preview dec headers limit) chunks in
      let r = after_chunks read (new_preview dec headers limit) chunks in
      (w.preview ≡ beginning)
      × (w.total ≡ length (all_bytes chunks))
      × (r.preview ≡ beginning)
      × (r.total ≡ length (all_bytes chunks))
unfolding new_preview
preview-stream dec headers limit chunks =
    let p = new_preview dec headers limit in
    let t =
      after_chunks-Tracks p [] chunks
        (record { preview = empty-kept limit (body_capture_allowed dec headers); total = refl }) in
    let (l, c) = after_chunks-settings p chunks in
    let e = t.preview ∙ ap₂ (λ (c : Bool) (n : ℕ). kept c n (all_bytes chunks)) c l in
    let same = ap (λ (step : Preview → Bytes → Preview). after_chunks step p chunks) same_step in
    (
      e,
      t.total,
      ap (λ (q : Preview). q.preview) same ∙ e,
      ap (λ (q : Preview). q.total) same ∙ t.total,
    )
  where
    same_step : read ≡ observe
    same_step = fun_ext (λ p. fun_ext (λ value. read-observe p value))
