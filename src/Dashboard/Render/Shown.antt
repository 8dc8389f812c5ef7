-- ===== src/Dashboard/Render/Shown.antt =====
-- What text the two readers of a description keep.
use Prim.Native.String.{◌++◌ as text_append}
use job_aggregator.Prelude.{String, ◌++◌, ◌≡◌}
use job_aggregator.Errors.{Result, ok, raise}
use job_aggregator.Dashboard.Render.Texts.{shown, prose_of}
use job_aggregator.Resume.Words.{text_length}
use job_aggregator.Dashboard.Render.{Html, Renderer, Extractor, text_take}

-- The text of a result that is there.
abbrev shown_of : Result Renderer → String
shown_of (ok r) = shown r.parts
shown_of (raise e) = ""

-- The renderer has shown the beginning of what the extractor has read, up to the cap.
record Agree (r : Renderer) (x : Extractor) : Type 0 where
  same_skip : r.skip ≡ x.skip
  same_text : shown r.parts ≡ text_take 12000 (prose_of x.parts)
  counted : text_length (shown r.parts) ≡ r.chars

module _ (html : Html) where
  -- A renderer that has not raised agrees with the extractor.
  abbrev Agrees : Result Renderer → Extractor → Type 0
  Agrees (ok r) x = Agree r x
  Agrees (raise e) x = Unit
