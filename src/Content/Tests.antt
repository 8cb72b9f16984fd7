-- ===== src/Content/Tests.antt =====
-- The checks of the body at concrete inputs.
use zerohttp.Prelude.{[], ◌∷◌}
use zerohttp.Prelude.Int.{pos}
use zerohttp.Text.{codes}
use zerohttp.Http.{Request}
use zerohttp.Content.Kind
use zerohttp.Content.Encoding
use zerohttp.Content.Charset

abbrev ask : Request
ask = record {
  method = codes "POST";
  path = codes "/docs";
  host = codes "a.org";
  headers =
      (codes "Content-Type", codes "Application/JSON; charset=UTF-8" ∷ [])
      ∷ (codes "Content-Encoding", codes "gzip, br" ∷ [])
      ∷ [];
  content_length = pos 12;
}

abbrev kinds : Kind.Config
kinds = record {
  content_types = codes "application/json" ∷ [];
  excluded_paths = [];
  included_paths = [];
}

abbrev encodings : Encoding.Config
encodings = record { encodings = codes "gzip" ∷ []; excluded_paths = []; included_paths = [] }

abbrev charsets : Charset.Config
charsets = record { charsets = codes "utf-8" ∷ [] }
