-- ===== src/Capture/Preview.antt =====
-- internal/dependencycapture/capture.go: previewReader and previewWriter, which keep the beginning
-- of a stream and count its bytes. The stream is shorter than 2^63 bytes, so the count does not wrap.
pub mod Stream
use mockingo_agent.Base.{
  ℕ, zero, suc, ◌+◌, ◌-◌, min, Bool, true, false, ◌||◌, ◌&&◌, not, List, [], ◌∷◌, ◌++◌, Bytes,
  length, length-append, length-take, take, leb, if◌then◌else◌, ◌≡◌, refl, arith, append-nil,
  append_assoc, ap, ap₂, sym, ◌∙◌, Bool-cases, inl, inr,
}
use mockingo_agent.Protocol.Message.{HeaderMap}
use mockingo_agent.Capture.Body.{Decoders, body_capture_allowed}

pub record Preview : Type 0 where
  pub preview : Bytes
  pub limit : ℕ
  pub total : ℕ
  pub capture : Bool

unfoldable pub new_preview : Decoders → HeaderMap → ℕ → Preview
new_preview dec headers limit = record {
  preview = [];
  limit = limit;
  total = 0;
  capture = body_capture_allowed dec headers;
}

-- previewWriter.observe
unfoldable pub observe : Preview → Bytes → Preview
observe w value =
    if not w.capture || leb w.limit (length w.preview)
    then record w { total = w.total + length value }
    else record w {
      total = w.total + length value;
      preview = w.preview ++ take (min (w.limit - length w.preview) (length value)) value;
    }

-- previewReader.Read, when the reader gives the bytes of `value`.
unfoldable pub read : Preview → Bytes → Preview
read r value =
    if r.capture && not (leb r.limit (length r.preview))
    then record r {
      total = r.total + length value;
      preview = r.preview ++ take (min (r.limit - length r.preview) (length value)) value;
    }
    else record r { total = r.total + length value }

abbrev pub all_bytes : List Bytes → Bytes
all_bytes [] = []
all_bytes (c ∷ cs) = c ++ all_bytes cs

abbrev pub after_chunks : (Preview → Bytes → Preview) → Preview → List Bytes → Preview
after_chunks step p [] = p
after_chunks step p (c ∷ cs) = after_chunks step (step p c) cs
